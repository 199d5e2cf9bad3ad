-- ===== src/Limiter/UserQps.antt =====
-- src/limiters/user_qps_limiter.{h,cpp}: a window of requests for each user.
use bcm_server.Base.{
  Bool, List, Map, Str, [], codes, elem, emplace, if◌then◌else◌, insert, is_empty, lookup, none,
  or_else, some, ℕ, ◌&&◌, ◌∷◌, str_key, nat_key,
}
use bcm_server.Base.Int.{eqb_ℤ, ltb_ℤ, pos, sub_ℕ, ℤ}
use bcm_server.Limiter.{
  LimitLevel, LimitRule, LimitState, Status, UpdateEvent, charge, good, limited, new_status,
}

pub record UserQpsLimiter : Type 0 where
  pub rule : LimitRule
  pub status : Map Str Status

abbrev pub default_rule : LimitRule
default_rule = record { period = pos 1000; count = pos 1000 }

abbrev pub user_qps_rule_key : Str
user_qps_rule_key = codes "user/qps"

abbrev pub identity : Str
identity = codes "UserQpsLimiter"

pub new_user_qps : UserQpsLimiter
new_user_qps = record { rule = default_rule; status = [] }

unfoldable pub acquire_access : UserQpsLimiter → Str → ℕ → UserQpsLimiter × LimitLevel
acquire_access l id now =
    let items = emplace id new_status l.status in
    let (s, level) = charge l.rule (or_else (lookup id items) new_status) now in
    (record l { status = insert id s items }, level)

over : LimitRule → Status → ℕ → LimitLevel
over rule s now =
    if ltb_ℤ rule.count (pos s.counter) && ltb_ℤ (sub_ℕ now s.start_time) rule.period
    then limited
    else good

unfoldable pub is_limited : UserQpsLimiter → Str → ℕ → LimitLevel
unfolding over
is_limited l id now = elim (lookup id l.status) [ none ↦ good | some s ↦ over l.rule s now ]

unfoldable pub collect : Map Str Status → List Str → Map Str ℤ → Map Str ℤ
collect status [] out = out
collect status (k ∷ ks) out =
    collect status ks
      (elim (lookup k status) [ none ↦ out | some s ↦ emplace k (pos s.counter) out ])

unfoldable pub current_state : UserQpsLimiter → LimitState → LimitState
unfolding collect
current_state l st =
    if is_empty st.keys
    then st
    else record st { counters = collect l.status st.keys st.counters; id = identity }

abbrev pub same_rule : LimitRule → LimitRule → Bool
same_rule a b = eqb_ℤ a.count b.count && eqb_ℤ a.period b.period

unfoldable pub update : UserQpsLimiter → UpdateEvent → UserQpsLimiter
update l e = elim (lookup user_qps_rule_key e.configs) [
  | none ↦ if elem user_qps_rule_key e.removed then record l { rule = default_rule } else l
  | some r ↦ if same_rule l.rule r then l else record l { rule = r }
]
