-- ===== src/Limiter.antt =====
-- src/limiters: the types that the rate limiters share (limiter.h, checker.h, configuration_manager.h,
-- dao/limiter_configurations.h), and the fixed window counter. Times are readings in milliseconds.
mod Tests
pub mod UserQps
pub mod Window
pub mod Configuration
pub mod Follow
pub mod ApiMatcher
pub mod ApiQps
pub mod ApiFollow
pub mod Distributed
pub mod Slots
pub mod Counted
pub mod Executor
pub mod Verdict
pub mod Dependency
pub mod Queries
use bcm_server.Base.{Bool, List, Map, Str, eqb, if◌then◌else◌, ℕ, ◌+◌, ◌||◌, str_key, nat_key}
use bcm_server.Base.Int.{leb_ℤ, pos, sub_ℕ, ℤ}

-- `enum LimitLevel`.
pub data LimitLevel : Type 0 where
  good limited : LimitLevel

-- `dao::LimitRule`.
pub record LimitRule : Type 0 where
  pub period : ℤ
  pub count : ℤ

-- `ILimiter::Status`.
pub record Status : Type 0 where
  pub start_time : ℕ
  pub counter : ℕ

abbrev pub new_status : Status
new_status = record { start_time = 0; counter = 0 }

-- `struct LimitState`: the keys that a caller asks for, and what the limiter answers.
pub record LimitState : Type 0 where
  pub id : Str
  pub keys : List Str
  pub counters : Map Str ℤ

-- `struct LimiterConfigUpdateEvent`.
pub record UpdateEvent : Type 0 where
  pub configs : Map Str LimitRule
  pub removed : List Str

-- Has the window of `s` run out at `now`?
abbrev pub expired : LimitRule → Status → ℕ → Bool
expired rule s now = eqb s.start_time 0 || leb_ℤ rule.period (sub_ℕ now s.start_time)

-- The block under the item's mutex in `acquireAccess`: a new window, or one more request in it.
unfoldable pub charge : LimitRule → Status → ℕ → Status × LimitLevel
charge rule s now =
    if expired rule s now then (record { start_time = now; counter = 1 }, good) else (
      record s { counter = s.counter + 1 },
      if leb_ℤ (pos (s.counter + 1)) rule.count then good else limited,
    )
