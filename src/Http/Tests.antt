-- ===== src/Http/Tests.antt =====
-- Requests and routes at concrete inputs.
use bcm_server.Base.{
  All, List, Str, [], arith, codes, insert, refl, true, ◌∷◌, ◌≡◌, str_key, nat_key,
}
use bcm_server.Dispatch.Address.{address_key}
use bcm_server.Codec.Hex
use bcm_server.Codec.Url.{decode_url, encode_char, encode_url, unreserved, written}
use bcm_server.Http.Route.{HttpRoute, route_match, segment_type}
use bcm_server.Http.RouteFill.{IsSlot, Slot, bind_all, path_of, text, value}
use bcm_server.Http.QueryRound.{IsParam, put_all}
use bcm_server.Http.Router.{HttpRouter, match_request, matched_route, run_filters}
use bcm_server.Http.RouterMatch.{left_over, match_request-path_of, path_for, request_for, route_of}

abbrev user_route : HttpRoute
user_route = record { verb = 2; path = codes "/v1/:uid/keys"; has_handler = true }

abbrev group_route : HttpRoute
group_route = record { verb = 2; path = codes "/v1/groups"; has_handler = true }

abbrev router : HttpRouter
router = record {
  routes = (codes "GET_/v1/:uid/keys", user_route) ∷ (codes "GET_/v1/groups", group_route) ∷ [];
  filters = [];
  observers = [];
}

abbrev slots : List Slot
slots = text (codes "v1") ∷ value (codes "uid") (codes "a/b") ∷ text (codes "keys") ∷ []

-- The slash of the value is written as %2F.
abbrev kvs : List (Str × Str)
kvs = (codes "n", codes "7") ∷ []

slots-IsSlot : All IsSlot slots
unfolding segment_type
slots-IsSlot = (
  (((refl, (refl, (refl, tt))), (refl, (refl, tt)), refl)),
  (
    ((refl, (refl, (refl, tt))), refl, omega arith),
    (((refl, (refl, (refl, (refl, (refl, tt))))), (refl, (refl, (refl, (refl, tt)))), refl), tt),
  ),
)

kvs-IsParam : All IsParam kvs
kvs-IsParam = ((refl, (refl, tt), (refl, tt), refl, omega arith), tt)

match_request-path_of_example : match_request router (request_for 2 slots kvs) [] [] ≡ (
  matched_route (route_of 2 slots),
  put_all kvs [],
  bind_all slots (left_over ((codes "GET_/v1/groups", group_route) ∷ []) 2 (path_for slots) []),
)
unfolding route_match encode_url path_of segment_type run_filters encode_char unreserved Hex.encode
    Hex.hex_digit
match_request-path_of_example =
    match_request-path_of router 2 slots kvs [] [] ((codes "GET_/v1/groups", group_route) ∷ []) []
      (codes "GET_/v1/:uid/keys") refl refl (refl, tt) slots-IsSlot kvs-IsParam
      (
        refl,
        (
          refl,
          (
            refl,
            (
              refl,
              (refl, (refl, (refl, (refl, (refl, (refl, (refl, (refl, (refl, (refl, tt)))))))))),
            ),
          ),
        ),
      )

-- A parameter that a route has set before it gives up stays for the others.
left_behind : (route_match user_route 2 (codes "/v1/x/other") []).1 ≡ (codes ":uid", codes "x") ∷ []
unfolding route_match decode_url written insert
left_behind = refl
