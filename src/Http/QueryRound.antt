-- ===== src/Http/QueryRound.antt =====
-- src/http/http_router.cpp: a query that is written from parameters.
use bcm_server.Base.{
  All, IsBytes, List, Map, Str, [], ap, false, insert, is_empty, refl, some, sym, ◌++◌, ◌∙◌, ◌∷◌,
  ◌≡◌, str_key, nat_key,
}
use mathlib.Core.List.{append_assoc, append-nil}
use bcm_server.Codec.Hex
use bcm_server.Codec.Hex.{hexmap_upper}
use bcm_server.Codec.Url.{decode_url-encode_url, encode_url, unreserved}
use bcm_server.Codec.UrlFree.{encode_url-Free, encode_url_nonempty}
use bcm_server.Dispatch.Address.{Free, address_key}
use bcm_server.Http.Query.{find_query, parse_uri, parsed, put_param, query_loop}

-- Names and values, each pair with an `&` behind it.
unfoldable pub query_of : List (Str × Str) → Str
query_of [] = []
query_of ((k, v) ∷ kvs) = k ++ (b'=' ∷ (encode_url v ++ (b'&' ∷ query_of kvs)))

-- The parameters, a later value over an earlier one.
unfoldable pub put_all : List (Str × Str) → Map Str Str → Map Str Str
put_all [] m = m
put_all ((k, v) ∷ kvs) m = put_all kvs (insert k v m)

-- A name is not empty and has no `=` and no `&`; a value is bytes and not empty.
abbrev pub IsParam : Str × Str → Type 0
IsParam p =
    (is_empty p.0 ≡ false) × Free b'=' p.0 × Free b'&' p.0 × (is_empty p.1 ≡ false) × IsBytes p.1

equals-Free : Free b'=' Hex.hexmap_upper
equals-Free = (
  refl,
  (
    refl,
    (
      refl,
      (
        refl,
        (
          refl,
          (
            refl,
            (refl, (refl, (refl, (refl, (refl, (refl, (refl, (refl, (refl, (refl, tt)))))))))),
          ),
        ),
      ),
    ),
  ),
)

ampersand-Free : Free b'&' Hex.hexmap_upper
ampersand-Free = (
  refl,
  (
    refl,
    (
      refl,
      (
        refl,
        (
          refl,
          (
            refl,
            (refl, (refl, (refl, (refl, (refl, (refl, (refl, (refl, (refl, (refl, tt)))))))))),
          ),
        ),
      ),
    ),
  ),
)

query_loop-append :
    (key text : Str) (m : Map Str Str) (s t : Str)
    → Free b'=' s
    → Free b'&' s
    → query_loop key text m (s ++ t) ≡ query_loop key (text ++ s) m t
unfolding query_loop
query_loop-append key text m [] t h k = ap (λ q. query_loop key q m t) (sym (append-nil text))
query_loop-append key text m (c ∷ s) t h k =
    rw (h.0, k.0, query_loop)
      (query_loop-append key (text ++ c ∷ []) m s t h.1 k.1
        ∙ ap (λ q. query_loop key q m t) (append_assoc text (c ∷ []) s))

put_param_lem :
    (k v : Str) (m : Map Str Str)
    → IsParam (k, v)
    → put_param k (encode_url v) m ≡ parsed (insert k v m)
unfolding put_param
put_param_lem k v m h =
    rw (h.0, encode_url_nonempty v h.3, decode_url-encode_url v h.4, put_param) refl

one_param :
    (k v : Str) (m : Map Str Str) (rest : Str)
    → IsParam (k, v)
    → query_loop [] [] m (k ++ (b'=' ∷ (encode_url v ++ (b'&' ∷ rest))))
      ≡ query_loop [] [] (insert k v m) rest
unfolding query_loop
one_param k v m rest h =
    query_loop-append [] [] m k (b'=' ∷ (encode_url v ++ (b'&' ∷ rest))) h.1 h.2
    ∙ query_loop-append k [] m (encode_url v) (b'&' ∷ rest)
        (encode_url-Free b'=' equals-Free (unfold unreserved in refl) refl v)
        (encode_url-Free b'&' ampersand-Free (unfold unreserved in refl) refl v)
    ∙ rw (put_param_lem k v m h, query_loop) refl

query_loop-query_of :
    (kvs : List (Str × Str)) (m : Map Str Str)
    → All IsParam kvs
    → query_loop [] [] m (query_of kvs ++ b'&' ∷ []) ≡ parsed (put_all kvs m)
unfolding query_of put_all
query_loop-query_of [] m h = unfold query_loop in unfold put_param in refl
query_loop-query_of ((k, v) ∷ kvs) m h =
    ap (query_loop [] [] m) (
      append_assoc k (b'=' ∷ (encode_url v ++ (b'&' ∷ query_of kvs))) (b'&' ∷ [])
      ∙ ap (λ t. k ++ (b'=' ∷ t)) (append_assoc (encode_url v) (b'&' ∷ query_of kvs) (b'&' ∷ [])))
    ∙ one_param k v m (query_of kvs ++ b'&' ∷ []) h.0
    ∙ query_loop-query_of kvs (insert k v m) h.1

find_query-append :
    (target p s : Str) → Free b'?' p → find_query target (p ++ b'?' ∷ s) ≡ (target ++ p, some s)
unfolding find_query
find_query-append target [] s h = ap (λ t. (t, some s)) (sym (append-nil target))
find_query-append target (c ∷ p) s h = rw h.0 (
    find_query-append (target ++ c ∷ []) p s h.1
    ∙ ap (λ t. (t, some s)) (append_assoc target (c ∷ []) p))

-- A target with a query that was written from names and values, as `UrlEncoder` writes them, is split
-- into its path and exactly these parameters, over those that were there; a later value of a name
-- replaces an earlier one. The path has no `?`, a name is not empty and has no `=` and no `&`, and a
-- value is bytes and not empty.
pub parse_uri-query_of :
    (path : Str) (kvs : List (Str × Str)) (m : Map Str Str)
    → Free b'?' path
    → All IsParam kvs
    → parse_uri (path ++ b'?' ∷ query_of kvs) m ≡ (path, parsed (put_all kvs m))
unfolding parse_uri
parse_uri-query_of path kvs m h k =
    rw (find_query-append [] path (query_of kvs) h)
      (ap (λ r. (path, r)) (query_loop-query_of kvs m k))
