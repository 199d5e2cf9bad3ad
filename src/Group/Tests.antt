-- ===== src/Group/Tests.antt =====
-- Two groups, a few users, and what happens to them.
use bcm_server.Base.{
  All, ==_refl, Bool, List, Str, [], arith, codes, elem, eqb, false, if◌then◌else◌, lookup, none,
  refl, some, str_eq, str_eq_iff, true, ℕ, ◌%◌, ◌&&◌, ◌∷◌, ◌≡◌, str_key, nat_key,
}
use bcm_server.Dispatch.Address.{DispatchAddress, address_key}
use bcm_server.Group.Offline.{
  GroupUser, Members, is_group_exist, is_member_exists, load_group_members, user_leave_group,
}
use bcm_server.Group.OfflineInv.{Inv}
use bcm_server.Group.OfflineEvents
use bcm_server.Group.OfflineEvents.{step-Inv}
use bcm_server.Group.OfflineQueries.{load_after_failure, user_leave_group_lem}
use bcm_server.Group.Sets.{has, members_of}
use bcm_server.Group.Online.{Online}
use bcm_server.Group.NoiseChoice.{Chosen, get_online_users-Chosen}
use bcm_server.Group.Noise.{Choice, get_online_users, get_online_users_endless}
use bcm_server.Group.Subscribed
use bcm_server.Group.Subscribed.{Ready, step-Ready}

abbrev alice : Str
alice = codes "alice"

abbrev bob : Str
bob = codes "bob"

abbrev nobody : Members
nobody = record { members = []; subscribers = []; muted = []; reload_times = [] }

nobody-Inv : Inv nobody
unfolding has lookup elem
nobody-Inv = record {
  members_full = λ g h. cc;
  subscribers_full = λ g h. cc;
  muted_full = λ g h. cc;
  one_role = λ u g h. cc;
  muted_inside = λ u g h. cc;
}

abbrev two_rows : List GroupUser
two_rows =
    record { uid = alice; role = 1; status = 0 } ∷ record { uid = bob; role = 3; status = 1 } ∷ []

abbrev lowest_bit : ℕ → Bool
lowest_bit n = eqb (n % 2) 1

step-Inv_example :
    Inv (OfflineEvents.step 3 lowest_bit nobody (OfflineEvents.Event.loads 7 100 (some two_rows)))
step-Inv_example =
    step-Inv 3 lowest_bit nobody (OfflineEvents.Event.loads 7 100 (some two_rows))
      ((refl, tt), (tt, tt)) nobody-Inv

abbrev pair : Members
pair = record {
  members = (7, alice ∷ []) ∷ [];
  subscribers = (7, bob ∷ []) ∷ [];
  muted = (7, bob ∷ []) ∷ [];
  reload_times = [];
}

abbrev without_bob : Members
without_bob = user_leave_group 3 lowest_bit pair bob 7 100 none

user_leave_group_lem_example :
    let hit = eqb 7 7 && str_eq bob bob in
    (has bob 7 without_bob.members ≡ (if hit then false else has bob 7 pair.members))
    × (has bob 7 without_bob.subscribers ≡ (if hit then false else has bob 7 pair.subscribers))
    × (has bob 7 without_bob.muted ≡ (if hit then false else has bob 7 pair.muted))
unfolding is_group_exist is_member_exists has lookup elem
user_leave_group_lem_example =
    user_leave_group_lem 3 lowest_bit pair bob 7 100 none refl (ground (arith, str_eq_iff bob bob))
      bob 7

load_after_failure_example :
    let (m', done) = load_group_members 3 lowest_bit nobody 7 100 none in
    (done ≡ false)
    × (load_group_members 3 lowest_bit m' 7 105 (some two_rows) ≡ (m', true))
    × (is_group_exist m' 7 ≡ false)
unfolding is_group_exist lookup
load_after_failure_example =
    load_after_failure 3 lowest_bit nobody 7 100 105 (some two_rows) refl refl (omega arith)

abbrev nobody_online : Online
nobody_online = record { online_users = []; groups = []; wired = true; channels = [] }

nobody_online-Ready : Ready 0 3 nobody_online
unfolding lookup
nobody_online-Ready = (refl, λ g h. cc)

abbrev phone : DispatchAddress
phone = record { uid = alice; deviceid = 1 }

abbrev phone_comes : Subscribed.Event
phone_comes = Subscribed.Event.comes phone (some (record { gid = 7; role = 1 } ∷ []))

step-Ready_example : Ready 0 3 (Subscribed.step 0 3 nobody_online phone_comes)
step-Ready_example = step-Ready 0 3 nobody_online phone_comes nobody_online-Ready

abbrev one_online : Online
one_online = record {
  online_users = (alice, phone ∷ []) ∷ [];
  groups = (7, phone ∷ []) ∷ [];
  wired = true;
  channels = 7 ∷ [];
}

get_online_users_endless_example :
    get_online_users
      (λ a. true)
      bob
      2
      1000
      one_online
      7
      (record { result = []; last_noise_uid = [] })
    ≡ none
unfolding lookup elem
get_online_users_endless_example =
    get_online_users_endless (λ a. true) bob 2 1000 one_online 7
      (record { result = []; last_noise_uid = [] }) (λ h. cc) refl
      ((ground (arith, ==_refl phone), tt), tt)

abbrev none_yet : Choice
none_yet = record { result = []; last_noise_uid = [] }

get_online_users-Chosen_example :
    (c : Choice) × (get_online_users (λ a. true) [] 2 3 one_online 8 none_yet ≡ some c)
    × All (Chosen (λ a. true) (members_of 8 one_online.groups)) c.result
get_online_users-Chosen_example =
    get_online_users-Chosen (λ a. true) 2 one_online 8 none_yet (tt, tt) tt
