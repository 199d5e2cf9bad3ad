-- ===== src/Http/Route.antt =====
-- src/http/http_route.{h,cpp}: the segments of a path, and whether a route matches a request.
use bcm_server.Base.{
  Bool, List, Map, Str, [], codes, eqb, false, if◌then◌else◌, insert, is_empty, length, not, str_eq,
  true, ℕ, ◌++◌, ◌∷◌, str_key, nat_key,
}
use bcm_server.Codec.Hex.{Decoded}
use bcm_server.Codec.Url.{decode_url}

-- `Segment::Type`.
pub data SegmentType : Type 0 where
  nothing fixed parameter splat : SegmentType

pub record Segment : Type 0 where
  pub type : SegmentType
  pub raw : Str

-- The constructor, with `init`; the byte behind an empty text is 0.
unfoldable pub segment_type : Str → SegmentType
segment_type [] = fixed
segment_type (c ∷ s) =
    if eqb c b':'
    then parameter
    else (if eqb c b'*' then (if is_empty s then splat else nothing) else fixed)

unfoldable pub segment : Str → Segment
unfolding segment_type
segment s = record { type = segment_type s; raw = s }

-- `std::getline` by '/', where `p` is the text so far, and what is empty is dropped.
unfoldable pub put_segment : Str → List Segment → List Segment
unfolding segment
put_segment p rest = if is_empty p then rest else segment p ∷ rest

unfoldable pub segments_from : Str → Str → List Segment
unfolding put_segment
segments_from p [] = put_segment p []
segments_from p (c ∷ s) =
    let next = put_segment p (segments_from [] s) in
    let more = segments_from (p ++ c ∷ []) s in if eqb c b'/' then next else more

unfoldable pub from_path : Str → List Segment
unfolding segments_from
from_path path = segments_from [] path

-- `Segment::match`.
unfoldable pub segment_match : Segment → Str → Bool
segment_match seg raw = elim seg.type [
  | nothing ↦ false
  | fixed ↦ str_eq raw seg.raw
  | parameter ↦ true
  | splat ↦ true
]

-- What a call of `match` comes to: an answer, or the text that the decoder throws.
pub data Verdict : Type 0 where
  matched mismatched : Verdict
  thrown : Str → Verdict

-- What a segment that matches puts into the parameters.
unfoldable pub set_param : Segment → Str → Map Str Str → Map Str Str
set_param seg value params = elim seg.type [
  | nothing ↦ params
  | fixed ↦ params
  | parameter ↦ insert seg.raw value params
  | splat ↦ insert value value params
]

-- The loop over the segments, of which there are as many on both sides. The parameters that it has
-- set stay when it gives up.
unfoldable pub match_segments : List Segment → List Segment → Map Str Str → Verdict × Map Str Str
unfolding segment_match set_param
match_segments [] reqs params = (matched, params)
match_segments (seg ∷ segs) [] params = (matched, params)
match_segments (seg ∷ segs) (req ∷ reqs) params =
    if segment_match seg req.raw
    then elim (decode_url req.raw) [
      | Decoded.raw value ↦ match_segments segs reqs (set_param seg value params)
      | Decoded.throws m ↦ (thrown m, params)
    ]
    else (mismatched, params)

-- A route, with whether it has a handler. Verbs are numbers.
pub record HttpRoute : Type 0 where
  pub verb : ℕ
  pub path : Str
  pub has_handler : Bool

unfoldable pub name : (ℕ → Str) → HttpRoute → Str
name verb_name r = verb_name r.verb ++ codes "_" ++ r.path

unfoldable pub route_match : HttpRoute → ℕ → Str → Map Str Str → Verdict × Map Str Str
unfolding from_path match_segments
route_match r verb path params =
    if not r.has_handler
    then (mismatched, params)
    else (if not (eqb verb r.verb)
        then (mismatched, params)
        else (if not (eqb (length (from_path path)) (length (from_path r.path)))
            then (mismatched, params)
            else match_segments (from_path r.path) (from_path path) params))
