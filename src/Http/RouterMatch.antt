-- ===== src/Http/RouterMatch.antt =====
-- src/http/http_router.cpp: the route that a request is given, with its parameters.
use bcm_server.Base.{
  All, List, Map, Str, [], ap, codes, false, map, refl, reverse, true, ℕ, ◌++◌, ◌∙◌, ◌∷◌, ◌≡◌,
  str_key, nat_key,
}
use bcm_server.Dispatch.Address.{Free, address_key}
use bcm_server.Http.Route.{HttpRoute, mismatched, route_match}
use bcm_server.Http.RouteFill.{
  IsSlot, Slot, bind_all, path_of, pattern_part, request_part, route_match-path_of,
}
use bcm_server.Http.QueryRound.{IsParam, parse_uri-query_of, put_all, query_of}
use bcm_server.Http.Router.{
  HttpRouter, Request, find_route, match_request, matched_route, run_filters,
}

-- The parameters that routes leave behind which are tried and do not match.
unfoldable pub left_over : List (Str × HttpRoute) → ℕ → Str → Map Str Str → Map Str Str
left_over [] verb path p = p
left_over ((n, r) ∷ rest) verb path p = left_over rest verb path (route_match r verb path p).1

-- Every one of the routes is tried and does not match.
abbrev pub AllMismatch : List (Str × HttpRoute) → ℕ → Str → Map Str Str → Type 0
AllMismatch [] verb path p = Unit
AllMismatch ((n, r) ∷ rest) verb path p =
    ((route_match r verb path p).0 ≡ mismatched)
    × AllMismatch rest verb path (route_match r verb path p).1

find_route-append :
    (before after : List (Str × HttpRoute)) (verb : ℕ) (path : Str) (p : Map Str Str)
    → AllMismatch before verb path p
    → find_route (before ++ after) verb path p
      ≡ find_route after verb path (left_over before verb path p)
unfolding find_route left_over
find_route-append [] after verb path p h = refl
find_route-append ((n, r) ∷ before) after verb path p h =
    rw (h.0, find_route)
      (find_route-append before after verb path (route_match r verb path p).1 h.1)

-- A route with a handler, a path that is made from it, and a request for that path with a query.
abbrev pub route_of : ℕ → List Slot → HttpRoute
route_of verb slots = record {
  verb = verb;
  path = path_of (map pattern_part slots);
  has_handler = true;
}

abbrev pub path_for : List Slot → Str
path_for slots = path_of (map request_part slots)

abbrev pub request_for : ℕ → List Slot → List (Str × Str) → Request
request_for verb slots kvs = record { verb = verb; target = path_for slots ++ b'?' ∷ query_of kvs }

abbrev pub default_answer : ℕ × Str
default_answer = (460, codes "Resource Restricted by Filter")

-- Let the filters let a request pass, and let its target be a path, made from the segments of a route
-- with a handler and its verb, with a query that is written from names and values; the conditions on
-- these are those of `IsSlot` and `IsParam`, and the path has no `?`. If no route with a greater name
-- matches, the router gives the request to this route, with exactly the parameters of the query over
-- those that were there, and with the values of the path over those that were there and those that the
-- other routes have left behind.
pub match_request-path_of :
    (router : HttpRouter) (verb : ℕ) (slots : List Slot) (kvs : List (Str × Str))
    (q p : Map Str Str) (before after : List (Str × HttpRoute)) (n : Str)
    → reverse router.routes ≡ before ++ (n, route_of verb slots) ∷ after
    → (run_filters router.filters (request_for verb slots kvs) default_answer).0 ≡ false
    → AllMismatch before verb (path_for slots) p
    → All IsSlot slots
    → All IsParam kvs
    → Free b'?' (path_for slots)
    → match_request router (request_for verb slots kvs) q p ≡ (
      matched_route (route_of verb slots),
      put_all kvs q,
      bind_all slots (left_over before verb (path_for slots) p),
    )
unfolding match_request
match_request-path_of router verb slots kvs q p before after n routes pass others ok named
      path_free =
    let split = parse_uri-query_of (path_for slots) kvs q path_free named in
    let left = left_over before verb (path_for slots) p in
    let fits = route_match-path_of verb slots left ok in
    let found : find_route (reverse router.routes) verb (path_for slots) p
        ≡ (matched_route (route_of verb slots), bind_all slots left) =
      ap (λ rs. find_route rs verb (path_for slots) p) routes
      ∙ find_route-append before ((n, route_of verb slots) ∷ after) verb (path_for slots) p others
      ∙ rw (fits, find_route) (rw fits refl) in
    rw (split, match_request) (rw split (rw (pass, found) refl))
