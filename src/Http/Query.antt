-- ===== src/Http/Query.antt =====
-- src/http/http_router.cpp: the query of a target, with its parameters.
use bcm_server.Base.{
  Map, Option, Str, [], eqb, false, if◌then◌else◌, insert, is_empty, none, not, some, true, ◌&&◌,
  ◌++◌, ◌∷◌, str_key, nat_key,
}
use bcm_server.Codec.Hex.{Decoded}
use bcm_server.Codec.Url.{decode_url}
use bcm_server.Dispatch.Address.{address_key}

-- What `parseUri` comes to: the parameters, or the text that the decoder throws and those so far.
pub data Parsed : Type 0 where
  parsed : Map Str Str → Parsed
  failed : Str → Map Str Str → Parsed

-- `queryParams[key] = UrlEncoder::decode(value)`, if both are there.
unfoldable pub put_param : Str → Str → Map Str Str → Parsed
put_param key value m =
    if not (is_empty key) && not (is_empty value)
    then elim (decode_url value) [
      | Decoded.raw v ↦ parsed (insert key v m)
      | Decoded.throws e ↦ failed e m
    ]
    else parsed m

-- The loop over the query: `text` is what stands behind `lastPos`.
unfoldable pub query_loop : Str → Str → Map Str Str → Str → Parsed
unfolding put_param
query_loop key text m [] = parsed m
query_loop key text m (c ∷ s) =
    let named = query_loop text [] m s in
    let more = query_loop key (text ++ c ∷ []) m s in
    elim (eqb c b'=') [
      | true ↦ named
      | false ↦ elim (eqb c b'&') [
        | true ↦ elim (put_param key text m) [
          | parsed m' ↦ query_loop [] [] m' s
          | failed e m' ↦ failed e m'
        ]
        | false ↦ more
      ]
    ]

-- The text up to the first `?`, and what stands behind it.
unfoldable pub find_query : Str → Str → Str × Option Str
find_query target [] = (target, none)
find_query target (c ∷ s) =
    let more = find_query (target ++ c ∷ []) s in if eqb c b'?' then (target, some s) else more

unfoldable pub parse_uri : Str → Map Str Str → Str × Parsed
unfolding find_query query_loop
parse_uri uri m =
    let (target, query) = find_query [] uri in
    (target, elim query [ none ↦ parsed m | some q ↦ query_loop [] [] m (q ++ b'&' ∷ []) ])
