-- ===== src/Limiter/Tests.antt =====
-- The limiters on concrete rules, users and requests.
use bcm_server.Base.{
  List, Map, Option, Str, [], arith, codes, eqb, if◌then◌else◌, lookup, min, none, refl, some, true,
  ℕ, ◌-◌, ◌↔◌, ◌∷◌, ◌≡◌, ◌≤◌, str_key, nat_key,
}
use bcm_server.Base.Int.{negsuc, pos}
use bcm_server.Base.Decimal.{decimal}
use bcm_server.Limiter.{LimitRule, LimitState, Status, limited}
use bcm_server.Limiter.UserQps.{UserQpsLimiter, default_rule, user_qps_rule_key}
use bcm_server.Limiter.Window.{admitted, admitted-window, asked}
use bcm_server.Limiter.Configuration.{Manager, failure, gone, success}
use bcm_server.Limiter.Follow.{
  Follows, Happening, Service, happen_all, happen_all-Follows, reloading, request,
}
use bcm_server.Limiter.ApiMatcher.{Api, Matches, match_api, match_api_iff}
use bcm_server.Limiter.ApiQps.{ApiQpsLimiter, update_api}
use bcm_server.Limiter.ApiFollow.{FollowsApi, update_api-FollowsApi}
use bcm_server.Limiter.Distributed.{DistributedLimiter, Reply, acquire_slot, incr_switch}
use bcm_server.Limiter.Slots.{acquire_slot_over}
use bcm_server.Limiter.Counted.{let_in, let_in-min}
use bcm_server.Limiter.Executor.{Limiters, Request, args_of, is_ignored, pre_process}
use bcm_server.Limiter.Verdict.{charged, charges, let_through, let_through-le}

abbrev two_a_second : LimitRule
two_a_second = record { period = pos 1000; count = pos 2 }

abbrev alice : Str
alice = codes "alice"

abbrev bob : Str
bob = codes "bob"

abbrev seen_once : Status
seen_once = record { start_time = 5; counter = 1 }

abbrev users : UserQpsLimiter
users = record { rule = two_a_second; status = (alice, seen_once) ∷ [] }

abbrev history : List (Str × ℕ)
history = (alice, 10) ∷ (bob, 11) ∷ (alice, 12) ∷ (alice, 500) ∷ []

admitted-window_example : admitted alice users history ≡ min (asked alice history) (2 - 1)
unfolding lookup
admitted-window_example =
    admitted-window history users alice seen_once 2 refl (λ e. ground arith) refl
      (λ e. refl, (λ e. refl, (λ e. refl, (λ e. refl, tt))))

-- Segments between slashes.
abbrev head_cons : ℕ → List Str → List Str
head_cons c [] = (c ∷ []) ∷ []
head_cons c (s ∷ ss) = (c ∷ s) ∷ ss

abbrev slashes : Str → List Str
slashes [] = [] ∷ []
slashes (c ∷ s) = if eqb c b'/' then [] ∷ slashes s else head_cons c (slashes s)

abbrev get_name : ℕ → Str
get_name n = codes "GET"

abbrev everything : Limiters
everything = record {
  users = users;
  apis = record { rules = []; status = []; patterns = [] };
  ignored = [];
}

abbrev from_alice : Option Request
from_alice =
    some (record { method = 2; target = codes "/v1/keys?x"; auth_uid = some alice; from = [] })

abbrev incoming : List (Option Request × ℕ × ℕ)
incoming = (from_alice, 10, 10) ∷ (none, 11, 11) ∷ (from_alice, 12, 12) ∷ []

let_through-le_example : let_through slashes get_name alice everything incoming ≤ 2 - 1
unfolding lookup charges charged args_of pre_process is_ignored
let_through-le_example =
    let_through-le slashes get_name incoming everything alice seen_once 2 refl (λ e. ground arith)
      refl (λ e. refl, (λ e. refl, tt))

abbrev configured : Map Str LimitRule
configured = (user_qps_rule_key, two_a_second) ∷ []

abbrev fresh_service : Service
fresh_service = record {
  manager = record { connected = true; configs = [] };
  limiter = record { rule = default_rule; status = [] };
}

abbrev happenings : List Happening
happenings =
    reloading success configured
    ∷ request alice 7
    ∷ reloading failure []
    ∷ reloading success []
    ∷ []

happen_all-Follows_example : Follows (happen_all fresh_service happenings)
unfolding lookup
happen_all-Follows_example = happen_all-Follows fresh_service happenings refl

abbrev keys_of_user : Api
keys_of_user = record { method = 2; name = codes "/v1/keys/:uid" }

abbrev keys_of_alice : Api
keys_of_alice = record { method = 2; name = codes "/v1/keys/alice" }

match_api_iff_example : (match_api slashes keys_of_user keys_of_alice ≡ true) ↔ (
    (keys_of_user.method ≡ keys_of_alice.method)
    × Matches (slashes (codes "/v1/keys/:uid")) (slashes (codes "/v1/keys/alice")))
match_api_iff_example = match_api_iff slashes keys_of_user keys_of_alice

abbrev no_apis : ApiQpsLimiter
no_apis = record { rules = []; status = []; patterns = [] }

abbrev first_rules : Map Str LimitRule
first_rules = (codes "api/qps/keys", two_a_second) ∷ []

abbrev second_rules : Map Str LimitRule
second_rules = (codes "api/qps/groups", two_a_second) ∷ []

abbrev once_updated : ApiQpsLimiter
once_updated =
    update_api no_apis (record { configs = first_rules; removed = gone first_rules [] [] })

update_api-FollowsApi_example : FollowsApi second_rules (
    update_api once_updated
      (record { configs = second_rules; removed = gone second_rules first_rules [] }))
unfolding lookup
update_api-FollowsApi_example =
    update_api-FollowsApi once_updated first_rules second_rules (refl, tt)
      (update_api-FollowsApi no_apis [] first_rules (refl, tt) (λ n d. refl))

abbrev sms : DistributedLimiter
sms = record {
  default_rule = record { period = pos 1000; count = pos 1 };
  name = codes "sms";
  config_key = codes "sms";
  rule = record { period = pos 1000; count = pos 1 };
  status = [];
}

abbrev second_one : Reply
second_one = record { ret = pos 2; new_value = 2 }

abbrev failed_incr : Reply
failed_incr = record { ret = negsuc 0; new_value = 0 }

acquire_slot_over_example :
    ((acquire_slot decimal
        (acquire_slot decimal sms alice 5000 second_one).0
        alice
        5500
        failed_incr).1
      ≡ limited)
    × ((acquire_slot decimal
          (acquire_slot decimal sms alice 5000 second_one).0
          alice
          5500
          failed_incr).2
        ≡ [])
unfolding acquire_slot incr_switch lookup
acquire_slot_over_example =
    acquire_slot_over decimal sms alice 5000 5500 second_one failed_incr refl refl

abbrev loaded : Manager
loaded = record { connected = true; configs = configured }

abbrev asked_keys : List Str
asked_keys = alice ∷ user_qps_rule_key ∷ []

abbrev empty_state : LimitState
empty_state = record { id = []; keys = bob ∷ alice ∷ []; counters = [] }

let_in-min_example : let_in decimal sms alice 0 (5000 ∷ 5500 ∷ 5900 ∷ []) ≡ 1
unfolding lookup
let_in-min_example =
    let_in-min decimal sms alice 5 1 0 (5000 ∷ 5500 ∷ 5900 ∷ []) refl (omega arith) refl
      (omega arith, (omega arith, (omega arith, tt)))
