-- ===== src/Http/Router.antt =====
-- src/http/http_router.{h,cpp}: the routes by their names, and the route of a request.
use bcm_server.Base.{
  Bool, List, Map, Str, [], add, codes, false, if◌then◌else◌, insert, map, remove, reverse, true, ℕ,
  ◌++◌, ◌∷◌, str_key, nat_key,
}
use bcm_server.Http.Route.{HttpRoute, matched, mismatched, name, route_match, thrown}
use bcm_server.Http.Query.{failed, parse_uri, parsed}

-- What the router looks at in a request.
pub record Request : Type 0 where
  pub verb : ℕ
  pub target : Str

-- `onFilter`: whether the request is stopped, and the status and the reason, which it may change.
abbrev pub Filter : Type 0
Filter = Request → ℕ × Str → Bool × (ℕ × Str)

pub record HttpRouter : Type 0 where
  pub routes : Map Str HttpRoute
  pub filters : List Filter
  pub observers : List ℕ

-- `update` of an observer, with the verb and the path of an API.
pub data Notice : Type 0 where
  update : ℕ → ℕ → Str → Notice

unfoldable pub notify : HttpRouter → ℕ → Str → List Notice
notify router verb path = map (λ o. update o verb path) router.observers

unfoldable pub add_route : (ℕ → Str) → HttpRouter → HttpRoute → HttpRouter × List Notice
unfolding notify
add_route verb_name router r = (
  record router { routes = insert (name verb_name r) r router.routes },
  notify router r.verb r.path,
)

unfoldable pub add_filter : HttpRouter → Filter → HttpRouter
add_filter router f = record router { filters = router.filters ++ f ∷ [] }

unfoldable pub register_observer : HttpRouter → ℕ → HttpRouter
register_observer router o = record router { observers = add o router.observers }

unfoldable pub unregister_observer : HttpRouter → ℕ → HttpRouter
unregister_observer router o = record router { observers = remove o router.observers }

-- `MatchResult`, or an exception that the decoder throws.
pub data MatchResult : Type 0 where
  matched_route : HttpRoute → MatchResult
  filtered : ℕ × Str → MatchResult
  no_route : MatchResult
  exception : Str → MatchResult

unfoldable pub run_filters : List Filter → Request → ℕ × Str → Bool × (ℕ × Str)
run_filters [] request answer = (false, answer)
run_filters (f ∷ fs) request answer =
    let rest = run_filters fs request (f request answer).1 in
    if (f request answer).0 then (true, (f request answer).1) else rest

-- The loop over the routes, from the greatest name on, with the parameters as they are so far.
unfoldable pub find_route :
    List (Str × HttpRoute) → ℕ → Str → Map Str Str → MatchResult × Map Str Str
find_route [] verb path params = (no_route, params)
find_route ((n, r) ∷ rest) verb path params =
    let (verdict, params') = route_match r verb path params in
    let others = find_route rest verb path params' in
    elim verdict [
      | matched ↦ (matched_route r, params')
      | mismatched ↦ others
      | thrown m ↦ (exception m, params')
    ]

-- The result, the parameters of the query, and those of the path.
unfoldable pub match_request :
    HttpRouter → Request → Map Str Str → Map Str Str → MatchResult × Map Str Str × Map Str Str
unfolding run_filters find_route
match_request router request query_params path_params =
    let (path, query) = parse_uri request.target query_params in
    elim query [
      | failed m q ↦ (exception m, q, path_params)
      | parsed q ↦
          let (stopped, answer) =
            run_filters router.filters request (460, codes "Resource Restricted by Filter") in
          let (found, p) = find_route (reverse router.routes) request.verb path path_params in
          if stopped then (filtered answer, q, path_params) else (found, q, p)
    ]
