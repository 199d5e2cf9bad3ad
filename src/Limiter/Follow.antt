-- ===== src/Limiter/Follow.antt =====
-- A user limiter that observes the configuration manager.
use bcm_server.Base.{
  List, Map, Option, Str, [], arith, elem, lookup, none, or_else, some, true, ℕ, ◌∙◌, ◌∷◌, ◌≡◌,
  str_key,
}
use bcm_server.Limiter.{LimitRule, UpdateEvent}
use bcm_server.Limiter.UserQps.{
  UserQpsLimiter, acquire_access, default_rule, same_rule, update, user_qps_rule_key,
}
use bcm_server.Limiter.Window.{acquire-rule}
use bcm_server.Limiter.Configuration.{
  LoadCode, Manager, elem-gone, failure, gone, no_such_data, reload, success,
}

-- What happens to the two of them: a request, or a reload with its outcome.
pub data Happening : Type 0 where
  request : Str → ℕ → Happening
  reloading : LoadCode → Map Str LimitRule → Happening

pub record Service : Type 0 where
  pub manager : Manager
  pub limiter : UserQpsLimiter

abbrev after_event : UserQpsLimiter → Option UpdateEvent → UserQpsLimiter
after_event l none = l
after_event l (some e) = update l e

unfoldable pub happen : Service → Happening → Service
happen s (request id now) = record s { limiter = (acquire_access s.limiter id now).0 }
happen s (reloading code loaded) =
    let (m, e) = reload s.manager code loaded in
    record { manager = m; limiter = after_event s.limiter e }

unfoldable pub happen_all : Service → List Happening → Service
happen_all s [] = s
happen_all s (h ∷ hs) = happen_all (happen s h) hs

-- The rule in force is the one configured, and the default where none is.
abbrev pub Follows : Service → Type 0
Follows s = s.limiter.rule ≡ or_else (lookup user_qps_rule_key s.manager.configs) default_rule

pub same_rule→eq : (a b : LimitRule) → same_rule a b ≡ true → a ≡ b
same_rule→eq a b h = ground arith

update-Follows :
    (l : UserQpsLimiter) (old new : Map Str LimitRule)
    → l.rule ≡ or_else (lookup user_qps_rule_key old) default_rule
    → (update l (record { configs = new; removed = gone new old [] })).rule
      ≡ or_else (lookup user_qps_rule_key new) default_rule
unfolding update elem
update-Follows l old new h = ground (arith, elem-gone user_qps_rule_key new old [])

happen-Follows : (s : Service) (h : Happening) → Follows s → Follows (happen s h)
unfolding happen reload
happen-Follows s (request id now) f = acquire-rule s.limiter id now ∙ f
happen-Follows s (reloading success loaded) f =
    ground (arith, update-Follows s.limiter s.manager.configs loaded f)
happen-Follows s (reloading no_such_data loaded) f = ground arith
happen-Follows s (reloading failure loaded) f = ground arith

-- When the rule in force is the one that the manager holds, or the default where it holds none, then the
-- same is so after any requests and reloads, failed ones included.
pub happen_all-Follows : (s : Service) (hs : List Happening) → Follows s → Follows (happen_all s hs)
unfolding happen_all
happen_all-Follows s [] f = f
happen_all-Follows s (h ∷ hs) f = happen_all-Follows (happen s h) hs (happen-Follows s h f)
