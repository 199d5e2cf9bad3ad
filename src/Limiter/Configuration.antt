-- ===== src/Limiter/Configuration.antt =====
-- src/limiters/configuration_manager.{h,cpp}: the rules last loaded, and what a reload announces.
-- `LimiterConfigurations::load` is not modelled: its result is an argument of `reload`.
use bcm_server.Base.{
  Bool, List, Map, Option, Str, [], add, arith, elem, elem-add, false, if◌then◌else◌, insert,
  is_some, lookup, none, not, some, str_eq_iff, true, ◌&&◌, ◌||◌, ◌∷◌, ◌≡◌, str_key,
}
use bcm_server.Limiter.{LimitRule, UpdateEvent}

-- `dao::ErrorCode`, as far as the manager tells its values apart.
pub data LoadCode : Type 0 where
  success no_such_data failure : LoadCode

-- `connected` says that `m_configDao` is set.
pub record Manager : Type 0 where
  pub connected : Bool
  pub configs : Map Str LimitRule

pub initialize : Manager → Manager
initialize m = record m { connected = true }

pub uninitialize : Manager → Manager
uninitialize m = record m { connected = false }

-- The keys of `old` that `new` lacks, put into a set.
unfoldable pub gone : Map Str LimitRule → Map Str LimitRule → List Str → List Str
gone new [] out = out
gone new ((k, r) ∷ old) out = gone new old (if is_some (lookup k new) then out else add k out)

-- The new state, and the event that the observers are sent, if one is.
unfoldable pub reload : Manager → LoadCode → Map Str LimitRule → Manager × Option UpdateEvent
reload m code loaded =
    if m.connected
    then elim code [
      | success ↦ (
        record m { configs = loaded },
        some (record { configs = loaded; removed = gone loaded m.configs [] }),
      )
      | no_such_data ↦ (m, none)
      | failure ↦ (m, none)
    ]
    else (m, none)

-- `notify`: every observer that is not null takes the event.
unfoldable pub notify {ℓ} :
    {O : Type ℓ} → (O → UpdateEvent → O) → UpdateEvent → List (Option O) → List (Option O)
notify update e [] = []
notify update e (none ∷ os) = none ∷ notify update e os
notify update e (some o ∷ os) = some (update o e) ∷ notify update e os

-- `getConfiguration`.
unfoldable pub get_configuration : Manager → List Str → Map Str LimitRule
get_configuration m [] = []
get_configuration m (k ∷ ks) =
    let rest = get_configuration m ks in
    elim (lookup k m.configs) [ none ↦ rest | some r ↦ insert k r rest ]

pub elem-gone :
    (k : Str) (new old : Map Str LimitRule) (out : List Str)
    → elem k (gone new old out)
      ≡ (elem k out || (is_some (lookup k old) && not (is_some (lookup k new))))
unfolding gone lookup
elem-gone k new [] out = ground arith
elem-gone k new ((j, r) ∷ old) out = ground (
  arith,
  elem-gone k new old out,
  elem-gone k new old (add j out),
  elem-add j k out,
  str_eq_iff j k,
)
