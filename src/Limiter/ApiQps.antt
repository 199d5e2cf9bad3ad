-- ===== src/Limiter/ApiQps.antt =====
-- src/limiters/api_qps_limiter.{h,cpp}: a window of requests for each active API.
-- The matcher (`IApiMatcher::match` on two texts) is an argument.
use bcm_server.Base.{
  Bool, Key, List, Map, Option, Str, [], add, codes, emplace, eqb, erase, if◌then◌else◌, insert,
  is_empty, is_some, lookup, none, not, or_else, some, str_eq, str_eq_iff, str_less, true, ℕ, ◌&&◌,
  ◌∷◌, str_key, nat_key,
}
use bcm_server.Base.Int.{ltb_ℤ, pos, sub_ℕ}
use bcm_server.Limiter.{
  LimitLevel, LimitRule, LimitState, Status, UpdateEvent, charge, good, limited, new_status,
}
use bcm_server.Limiter.UserQps.{collect, default_rule, same_rule}

pub record ApiQpsLimiter : Type 0 where
  pub rules : Map Str LimitRule
  pub status : Map Str Status
  pub patterns : List Str

abbrev pub default_api_qps_rule_key : Str
default_api_qps_rule_key = codes "default"

abbrev pub api_qps_rule_key_prefix : Str
api_qps_rule_key_prefix = codes "api/qps/"

abbrev pub api_identity : Str
api_identity = codes "ApiQpsLimiter"

-- `std::greater` orders the patterns, so that a literal segment mostly comes before a parameter.
abbrev descending : Key Str
descending = record { beq = str_eq; less = λ s t. str_less t s; beq_iff = str_eq_iff }

abbrev pub without_slash : Str → Str
without_slash [] = []
without_slash (c ∷ s) = if eqb c b'/' then s else c ∷ s

-- The constructor's loop over the active APIs, each in the form of `to_string`.
unfoldable pub new_api_qps : List Str → ApiQpsLimiter → ApiQpsLimiter
new_api_qps [] l = l
new_api_qps (api ∷ apis) l = new_api_qps apis (
    if is_empty api then l else record l {
      patterns = add ⦃e = descending⦄ api l.patterns;
      status = emplace (without_slash api) new_status l.status;
    })

module _ (matches : Str → Str → Bool) where
  unfoldable pub api_of : List Str → Str → Str
  api_of [] id = []
  api_of (p ∷ ps) id = if matches p id then without_slash p else api_of ps id

unfoldable pub rule_of : Map Str LimitRule → Str → LimitRule
rule_of rules api = elim (lookup api rules) [
  | some r ↦ r
  | none ↦ or_else (lookup default_api_qps_rule_key rules) default_rule
]

charge_api : ApiQpsLimiter → Str → ℕ → Option Status → ApiQpsLimiter × LimitLevel
charge_api l api now none = (l, good)
charge_api l api now (some item) =
    let (s, level) = charge (rule_of l.rules api) item now in
    (record l { status = insert api s l.status }, level)

unfoldable pub acquire_api_access :
    (Str → Str → Bool) → ApiQpsLimiter → Str → ℕ → ApiQpsLimiter × LimitLevel
unfolding charge_api
acquire_api_access matches l id now =
    let api = api_of matches l.patterns id in
    if is_empty api then (l, good) else charge_api l api now (lookup api l.status)

over_api : LimitRule → Status → ℕ → LimitLevel
over_api rule s now =
    if ltb_ℤ rule.count (pos s.counter) && ltb_ℤ (sub_ℕ now s.start_time) rule.period
    then limited
    else good

unfoldable pub is_api_limited : ApiQpsLimiter → Str → ℕ → LimitLevel
unfolding over_api
is_api_limited l id now = elim (lookup id l.status) [
  | none ↦ good
  | some s ↦ over_api (rule_of l.rules id) s now
]

-- `boost::starts_with(s, prefix)`, and the rest of `s`.
unfoldable pub strip : Str → Str → Option Str
strip [] s = some s
strip (p ∷ ps) [] = none
strip (p ∷ ps) (c ∷ s) = if eqb p c then strip ps s else none

abbrev pub differs : Option LimitRule → LimitRule → Bool
differs none r = true
differs (some old) r = not (same_rule old r)

-- The name of the rule that a key of the configuration sets.
unfoldable pub rule_name : Str → Option Str
rule_name k =
    if str_eq k default_api_qps_rule_key
    then some default_api_qps_rule_key
    else strip api_qps_rule_key_prefix k

-- One round of the loop over `event.configs`, for the rule's name.
unfoldable pub put_changed :
    Map Str LimitRule → Option Str → LimitRule → Map Str LimitRule → Map Str LimitRule
put_changed rules none r out = out
put_changed rules (some name) r out =
    if differs (lookup name rules) r then emplace name r out else out

unfoldable pub changed :
    Map Str LimitRule → Map Str LimitRule → Map Str LimitRule → Map Str LimitRule
unfolding put_changed
changed rules [] out = out
changed rules ((k, r) ∷ cs) out = changed rules cs (put_changed rules (rule_name k) r out)

unfoldable pub put_removed : Map Str LimitRule → Option Str → List Str → List Str
put_removed rules none out = out
put_removed rules (some name) out = if is_some (lookup name rules) then add name out else out

unfoldable pub removed : Map Str LimitRule → List Str → List Str → List Str
unfolding put_removed
removed rules [] out = out
removed rules (k ∷ ks) out = removed rules ks (
    put_removed rules (strip api_qps_rule_key_prefix k)
      (if str_eq k default_api_qps_rule_key then add default_api_qps_rule_key out else out))

unfoldable pub assign_all : Map Str LimitRule → Map Str LimitRule → Map Str LimitRule
assign_all [] rules = rules
assign_all ((k, r) ∷ cs) rules = assign_all cs (insert k r rules)

unfoldable pub erase_all : List Str → Map Str LimitRule → Map Str LimitRule
erase_all [] rules = rules
erase_all (k ∷ ks) rules = erase_all ks (erase k rules)

-- Nothing is written when both sets are empty.
unfoldable pub update_api : ApiQpsLimiter → UpdateEvent → ApiQpsLimiter
unfolding changed removed
update_api l e =
    let ch = changed l.rules e.configs [] in
    let rm = removed l.rules e.removed [] in
    if is_empty ch && is_empty rm
    then l
    else record l { rules = erase_all rm (assign_all ch l.rules) }

unfoldable pub current_api_state : ApiQpsLimiter → LimitState → LimitState
current_api_state l st =
    if is_empty st.keys
    then st
    else record st { counters = collect l.status st.keys st.counters; id = api_identity }
