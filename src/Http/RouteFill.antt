-- ===== src/Http/RouteFill.antt =====
-- src/http/http_route.cpp: a path that is made from a route and values for its parameters.
use bcm_server.Base.{
  All, IsBytes, List, Map, Str, [], ap, eqb_iff, false, insert, is_empty, length, map, refl,
  str_eq_iff, suc, sym, true, ℕ, ◌++◌, ◌∙◌, ◌∷◌, ◌≡◌, str_key, nat_key,
}
use mathlib.Core.List.{append_assoc, append-nil}
use bcm_server.Dispatch.Address.{Free, address_key}
use bcm_server.Codec.Hex
use bcm_server.Codec.Hex.{Decoded, hexmap_upper, raw}
use bcm_server.Codec.Url.{
  decode_plain, decode_url, decode_url-encode_url, encode_url, unreserved, written,
}
use bcm_server.Codec.UrlFree.{encode_url-Free, encode_url_nonempty}
use bcm_server.Http.Route.{
  Segment, fixed, from_path, match_segments, matched, put_segment, route_match, segment,
  segment_match, segment_type, segments_from, set_param,
}

-- A path of segments.
unfoldable pub path_of : List Str → Str
path_of [] = []
path_of (s ∷ ss) = b'/' ∷ s ++ path_of ss

-- A text that stands between slashes.
abbrev pub IsPart : Str → Type 0
IsPart s = (is_empty s ≡ false) × Free b'/' s

segments_from-append :
    (p s t : Str) → Free b'/' s → segments_from p (s ++ t) ≡ segments_from (p ++ s) t
unfolding segments_from
segments_from-append p [] t h = ap (λ q. segments_from q t) (sym (append-nil p))
segments_from-append p (c ∷ s) t h = rw h.0 (
    segments_from-append (p ++ c ∷ []) s t h.1
    ∙ ap (λ q. segments_from q t) (append_assoc p (c ∷ []) s))

put_part :
    (s : Str) (rest : List Segment) → is_empty s ≡ false → put_segment s rest ≡ segment s ∷ rest
unfolding put_segment
put_part s rest h = rw h refl

segments_from-path_of :
    (p : Str) (ss : List Str)
    → All IsPart ss
    → segments_from p (path_of ss) ≡ put_segment p (map segment ss)
unfolding segments_from path_of
segments_from-path_of p [] h = refl
segments_from-path_of p (s ∷ ss) h = ap (put_segment p) (
    segments_from-append [] s (path_of ss) h.0.1
    ∙ segments_from-path_of s ss h.1
    ∙ put_part s (map segment ss) h.0.0)

-- The segments of a path are its parts.
pub from_path-path_of : (ss : List Str) → All IsPart ss → from_path (path_of ss) ≡ map segment ss
unfolding from_path put_segment
from_path-path_of ss h = segments_from-path_of [] ss h

slash-Free : Free b'/' Hex.hexmap_upper
slash-Free = (
  refl,
  (
    refl,
    (
      refl,
      (
        refl,
        (
          refl,
          (
            refl,
            (refl, (refl, (refl, (refl, (refl, (refl, (refl, (refl, (refl, (refl, tt)))))))))),
          ),
        ),
      ),
    ),
  ),
)

encode_url-IsPart : (s : Str) → is_empty s ≡ false → IsPart (encode_url s)
encode_url-IsPart s h =
    (encode_url_nonempty s h, encode_url-Free b'/' slash-Free (unfold unreserved in refl) refl s)

-- A text with no percent sign is decoded to itself.
decode_url-Free : (s : Str) → Free b'%' s → decode_url s ≡ Decoded.raw s
unfolding decode_url written
decode_url-Free [] h = refl
decode_url-Free (c ∷ s) h = decode_plain c s h.0 ∙ ap (written (c ∷ [])) (decode_url-Free s h.1)

-- A segment of a route with what stands there in a request: a fixed text, or a parameter with its name
-- and value.
pub data Slot : Type 0 where
  text : Str → Slot
  value : Str → Str → Slot

abbrev pub pattern_part : Slot → Str
pattern_part (text s) = s
pattern_part (value n v) = b':' ∷ n

abbrev pub request_part : Slot → Str
request_part (text s) = s
request_part (value n v) = encode_url v

-- The values, as the handler finds them.
abbrev pub bind_all : List Slot → Map Str Str → Map Str Str
bind_all [] params = params
bind_all (text s ∷ slots) params = bind_all slots params
bind_all (value n v ∷ slots) params = bind_all slots (insert (b':' ∷ n) v params)

-- A fixed text neither has a percent sign nor is it read as a parameter; a value is not empty.
abbrev pub IsSlot : Slot → Type 0
IsSlot (text s) = IsPart s × Free b'%' s × (segment_type s ≡ fixed)
IsSlot (value n v) = Free b'/' n × (is_empty v ≡ false) × IsBytes v

fixed_match : (s : Str) → segment_type s ≡ fixed → segment_match (segment s) s ≡ true
unfolding segment_match segment
fixed_match s e = rw (e, segment_match) ((str_eq_iff s s).1 refl)

fixed_params :
    (s v : Str) (params : Map Str Str)
    → segment_type s ≡ fixed
    → set_param (segment s) v params ≡ params
unfolding set_param segment
fixed_params s v params e = rw (e, set_param) refl

match_slots :
    (slots : List Slot) (params : Map Str Str)
    → All IsSlot slots
    → match_segments
        (map segment (map pattern_part slots))
        (map segment (map request_part slots))
        params
      ≡ (matched, bind_all slots params)
unfolding match_segments segment segment_match set_param
match_slots [] params h = refl
match_slots (text s ∷ slots) params h =
    rw (fixed_match s h.0.2, decode_url-Free s h.0.1, match_segments)
      (rw (fixed_params s s params h.0.2) (match_slots slots params h.1))
match_slots (value n v ∷ slots) params h =
    rw (decode_url-encode_url v h.0.2, match_segments)
      (match_slots slots (insert (b':' ∷ n) v params) h.1)

parts-All :
    (slots : List Slot)
    → All IsSlot slots
    → All IsPart (map pattern_part slots) × All IsPart (map request_part slots)
parts-All [] h = (tt, tt)
parts-All (text s ∷ slots) h = let r = parts-All slots h.1 in ((h.0.0, r.0), (h.0.0, r.1))
parts-All (value n v ∷ slots) h =
    let r = parts-All slots h.1 in (((refl, (refl, h.0.0)), r.0), (encode_url-IsPart v h.0.1, r.1))

same_length :
    (slots : List Slot)
    → length (map segment (map pattern_part slots)) ≡ length (map segment (map request_part slots))
same_length [] = refl
same_length (s ∷ slots) = ap suc (same_length slots)

-- A route with a handler, whose path is made of fixed texts and parameters, matches the path in which
-- values stand for the parameters, as `UrlEncoder` writes them, and gives the handler exactly these
-- values under the names of the parameters, over what was there. The values are bytes and not empty, a
-- fixed text is not empty, has no slash and no percent sign and does not read as a parameter, and a
-- name has no slash.
pub route_match-path_of :
    (verb : ℕ) (slots : List Slot) (params : Map Str Str)
    → All IsSlot slots
    → route_match
        (record { verb = verb; path = path_of (map pattern_part slots); has_handler = true })
        verb
        (path_of (map request_part slots))
        params
      ≡ (matched, bind_all slots params)
unfolding route_match
route_match-path_of verb slots params h =
    let all = parts-All slots h in
    rw
      (
        from_path-path_of (map pattern_part slots) all.0,
        from_path-path_of (map request_part slots) all.1,
        same_length slots,
        (eqb_iff verb verb).1 refl,
        (eqb_iff (length (map segment (map request_part slots))) _).1 refl,
      )
      (match_slots slots params h)
