-- ===== src/Limiter/Distributed.antt =====
-- src/limiters/distributed_limiter.{h,cpp}: a counter in redis for each user and time slot, with the
-- last count kept locally. The reply of redis to `incr` is an argument; the commands that the limiter
-- sends besides are part of the result. `decimal` stands for how a number is written to a stream.
use bcm_server.Base.{
  Bool, List, Map, Str, [], elem, emplace, eqb, if◌then◌else◌, insert, is_empty, is_some, lookup,
  none, or_else, some, suc, zero, ℕ, ◌%◌, ◌&&◌, ◌++◌, ◌/◌, ◌^◌, ◌∷◌, str_key, nat_key,
}
use bcm_server.Base.Int.{int64_of, ltb_ℤ, negsuc, pos, pos_part, succ_ℤ, ℤ}
use bcm_server.Limiter.{LimitLevel, LimitRule, LimitState, UpdateEvent, good, limited}
use bcm_server.Limiter.UserQps.{same_rule}

pub record Item : Type 0 where
  pub time_slot : ℕ
  pub count : ℤ

abbrev pub new_item : Item
new_item = record { time_slot = 0; count = pos 0 }

pub record DistributedLimiter : Type 0 where
  pub default_rule : LimitRule
  pub name : Str
  pub config_key : Str
  pub rule : LimitRule
  pub status : Map Str Item

pub new_distributed : Str → Str → ℤ → ℤ → DistributedLimiter
new_distributed name config_key period count = record {
  default_rule = record { period = period; count = count };
  name = name;
  config_key = config_key;
  rule = record { period = period; count = count };
  status = [];
}

-- What `RedisDbManager::incr` answers: its return value, and `new_value`, of 64 bits.
pub record Reply : Type 0 where
  pub ret : ℤ
  pub new_value : ℕ

pub data Command : Type 0 where
  set_one : Str → Command
  expire : Str → ℕ → Command

-- `nowInMilli() / rule.period`, for a positive period.
abbrev pub slot : LimitRule → ℕ → ℕ
slot rule now = now / pos_part rule.period

-- The period in seconds, of 32 bits.
abbrev pub seconds : LimitRule → ℕ
seconds rule = pos_part rule.period / 1000 % 2 ^ 32

normal_reply : Str → ℕ → ℕ → List Command
normal_reply key period new_value = if eqb new_value 1 then expire key period ∷ [] else []

-- The switch in `incr`. No case ends in a `break`: -1 and 0 run on into the cases below.
unfoldable pub incr_switch : Str → ℕ → Reply → ℤ × List Command
unfolding normal_reply
incr_switch key period r =
    let normal = normal_reply key period r.new_value in
    let reset = set_one key ∷ expire key period ∷ [] in
    elim r.ret [
      | pos zero ↦ (int64_of r.new_value, reset ++ normal)
      | pos (suc n) ↦ (int64_of r.new_value, normal)
      | negsuc zero ↦ (int64_of r.new_value, reset ++ normal)
      | negsuc (suc n) ↦ (int64_of r.new_value, normal)
    ]

abbrev pub over_count : LimitRule → ℤ → Bool
over_count rule count = ltb_ℤ rule.count count

-- The answer from the local copy: the count is over already in this slot.
abbrev pub known_over : LimitRule → Item → ℕ → Bool
known_over rule item now = eqb (slot rule now) item.time_slot && over_count rule item.count

module _ (decimal : ℕ → Str) where
  pub redis_key : DistributedLimiter → Str → ℕ → Str
  redis_key l uid time_slot = l.name ++ b'_' ∷ uid ++ b'_' ∷ decimal time_slot

  -- The new limiter, the answer, and the commands sent; no `incr` is sent when the local copy is over.
  unfoldable pub acquire_slot :
      DistributedLimiter → Str → ℕ → Reply → DistributedLimiter × LimitLevel × List Command
  unfolding redis_key
  acquire_slot l uid now r =
      let items = emplace uid new_item l.status in
      let item = or_else (lookup uid items) new_item in
      let sent = incr_switch (redis_key l uid (slot l.rule now)) (seconds l.rule) r in
      if is_some (lookup uid l.status) && known_over l.rule item now
      then (
        record l { status = insert uid (record item { count = succ_ℤ item.count }) items },
        limited,
        [],
      )
      else (
        record l {
          status = insert uid (record { time_slot = slot l.rule now; count = sent.0 }) items;
        },
        if over_count l.rule sent.0 then limited else good,
        sent.1,
      )

unfoldable pub is_slot_limited : DistributedLimiter → Str → ℕ → LimitLevel
is_slot_limited l uid now = elim (lookup uid l.status) [
  | none ↦ good
  | some item ↦ if known_over l.rule item now then limited else good
]

collect_slots : Map Str Item → List Str → Map Str ℤ → Map Str ℤ
collect_slots status [] out = out
collect_slots status (k ∷ ks) out =
    collect_slots status ks (elim (lookup k status) [ none ↦ out | some s ↦ emplace k s.count out ])

unfoldable pub current_slots : DistributedLimiter → LimitState → LimitState
unfolding collect_slots
current_slots l st =
    if is_empty st.keys
    then st
    else record st { counters = collect_slots l.status st.keys st.counters; id = l.name }

-- A configured period under a second is refused.
unfoldable pub update_slots : DistributedLimiter → UpdateEvent → DistributedLimiter
update_slots l e = elim (lookup l.config_key e.configs) [
  | none ↦ if elem l.config_key e.removed then record l { rule = l.default_rule } else l
  | some r ↦
      if ltb_ℤ r.period (pos 1000)
      then l
      else (if same_rule l.rule r then l else record l { rule = r })
]
