-- ===== src/Group/Noise.antt =====
-- src/group/online_msg_member_mgr.cpp, `getOnlineUsers`: the users who are sent noise. `fits` stands for
-- the test of a user's dispatcher, session and client version. The users who are online are taken to
-- stay the same between two rounds of the loop.
use bcm_server.Base.{
  All, Bool, Bool-cases, List, Map, Option, Str, [], add, arith, elem, eqb, false, if◌then◌else◌,
  inl, inr, is_empty, leb, length, none, not, refl, some, str_less, suc, true, zero, ℕ, ◌&&◌, ◌-◌,
  ◌∷◌, ◌≡◌, ◌≢◌, str_key, nat_key,
}
use bcm_server.Dispatch.Address.{DispatchAddress, address_key}
use bcm_server.Group.Online.{Online}
use bcm_server.Group.Sets.{members_of}

-- The loop over the devices of one user, with what is left of the batch.
unfoldable pub pick_devices :
    List DispatchAddress
    → List DispatchAddress
    → ℕ
    → List DispatchAddress
    → ℕ × List DispatchAddress
pick_devices excluded [] b users = (b, users)
pick_devices excluded (a ∷ as') b users =
    let b' = if elem a excluded then b else b - 1 in
    let users' = if elem a excluded then users else add a users in
    let rest = pick_devices excluded as' b' users' in if eqb b' 0 then (b', users') else rest

-- The loop from `upper_bound` on. It yields the new position and the users of the batch.
unfoldable pub pick_batch :
    List DispatchAddress
    → Map Str (List DispatchAddress)
    → ℕ
    → Str
    → List DispatchAddress
    → Str × List DispatchAddress
unfolding pick_devices
pick_batch excluded [] b at users = (at, users)
pick_batch excluded ((uid, devices) ∷ m) b at users =
    let (b', users') = pick_devices excluded devices b users in
    let rest = pick_batch excluded m b' uid users' in if eqb b 0 then (at, users) else rest

-- `upper_bound(at)` and what comes after it.
unfoldable pub after : Str → Map Str (List DispatchAddress) → Map Str (List DispatchAddress)
after at [] = []
after at ((uid, devices) ∷ m) =
    let rest = after at m in if str_less at uid then (uid, devices) ∷ m else rest

-- `count`, `result` and `lastNoiseUid`.
pub record Choice : Type 0 where
  pub result : List DispatchAddress
  pub last_noise_uid : Str

-- The loop over the candidates. True says that the function returns.
unfoldable pub take_candidates : ℕ → List DispatchAddress → Choice → Choice × Bool
take_candidates count [] c = (c, false)
take_candidates count (a ∷ as') c =
    let c' : Choice = record { result = add a c.result; last_noise_uid = a.uid } in
    let rest = take_candidates count as' c' in
    if elem a c.result
    then (c, true)
    else (if leb count (length c'.result) then (c', true) else rest)

unfoldable pub fitting : (DispatchAddress → Bool) → List DispatchAddress → List DispatchAddress
fitting fits [] = []
fitting fits (a ∷ as') = let rest = fitting fits as' in if fits a then a ∷ rest else rest

module _ (fits : DispatchAddress → Bool) (start : Str) (count : ℕ) where
  -- The outer loop on fuel; `none` is that the fuel runs out.
  unfoldable pub choose :
      ℕ
      → Map Str (List DispatchAddress)
      → List DispatchAddress
      → Str
      → Bool
      → Choice
      → Option Choice
  unfolding pick_batch after take_candidates fitting
  choose zero online excluded at over c = none
  choose (suc f) online excluded at over c =
      let (next_at, users) = pick_batch excluded (after at online) count at [] in
      let (c', returns) = take_candidates count (fitting fits users) c in
      let again = choose f online excluded [] true c in
      let on = choose f online excluded next_at over c' in
      if over && not (str_less at start)
      then some c
      else (if is_empty online
          then some (record c { result = [] })
          else (if is_empty users then again else (if returns then some c' else on)))

  unfoldable pub get_online_users : ℕ → Online → ℕ → Choice → Option Choice
  unfolding choose
  get_online_users fuel o excluded_gid c =
      choose fuel o.online_users (members_of excluded_gid o.groups) start false c

-- Every user of a map is excluded.
abbrev pub AllExcluded : List DispatchAddress → Map Str (List DispatchAddress) → Type 0
AllExcluded excluded m =
    All (λ (e : Str × List DispatchAddress). All (λ a. elem a excluded ≡ true) e.1) m

pick_devices-excluded :
    (excluded devices : List DispatchAddress) (b : ℕ) (users : List DispatchAddress)
    → All (λ a. elem a excluded ≡ true) devices
    → pick_devices excluded devices b users ≡ (b, users)
unfolding pick_devices
pick_devices-excluded excluded [] b users h = refl
pick_devices-excluded excluded (a ∷ as') b users h =
    ground (arith, pick_devices-excluded excluded as' b users h.1, h.0)

pick_batch-excluded :
    (excluded : List DispatchAddress) (m : Map Str (List DispatchAddress)) (b : ℕ) (at : Str)
    → AllExcluded excluded m
    → (pick_batch excluded m b at []).1 ≡ []
unfolding pick_batch
pick_batch-excluded excluded [] b at h = refl
pick_batch-excluded excluded ((uid, devices) ∷ m) b at h =
    rw (pick_devices-excluded excluded devices b [] h.0) (elim (Bool-cases (eqb b 0)) [
      | inl done ↦ rw done refl
      | inr on ↦ rw on (pick_batch-excluded excluded m b uid h.1)
    ])

after-excluded :
    (excluded : List DispatchAddress) (m : Map Str (List DispatchAddress)) (at : Str)
    → AllExcluded excluded m
    → AllExcluded excluded (after at m)
unfolding after
after-excluded excluded [] at h = tt
after-excluded excluded ((uid, devices) ∷ m) at h = elim (Bool-cases (str_less at uid)) [
  | inl here ↦ rw here h
  | inr later ↦ rw later (after-excluded excluded m at h.1)
]

before_start : (start : Str) → start ≢ [] → not (str_less [] start) ≡ false
before_start [] s = absurd (s refl)
before_start (x ∷ xs) s = refl

module _ (fits : DispatchAddress → Bool) (start : Str) (count : ℕ) where
  choose_endless :
      (f : ℕ) (online : Map Str (List DispatchAddress)) (excluded : List DispatchAddress) (at : Str)
      (over : Bool) (c : Choice)
      → start ≢ []
      → is_empty online ≡ false
      → AllExcluded excluded online
      → (over && not (str_less at start)) ≡ false
      → choose fits start count f online excluded at over c ≡ none
  unfolding choose
  choose_endless zero online excluded at over c s n e g = refl
  choose_endless (suc f) online excluded at over c s n e g =
      let nobody =
        pick_batch-excluded excluded (after at online) count at
          (after-excluded excluded online at e) in
      rw (g, n, nobody) (choose_endless f online excluded [] true c s n e (before_start start s))

-- When the search does not start at "", some user is online, and everybody who is online is excluded,
-- then the loop never ends: it has not returned after any number of rounds.
pub get_online_users_endless :
    (fits : DispatchAddress → Bool) (start : Str) (count fuel : ℕ) (o : Online) (excluded_gid : ℕ)
    (c : Choice)
    → start ≢ []
    → is_empty o.online_users ≡ false
    → AllExcluded (members_of excluded_gid o.groups) o.online_users
    → get_online_users fits start count fuel o excluded_gid c ≡ none
unfolding get_online_users
get_online_users_endless fits start count fuel o excluded_gid c s n e =
    choose_endless fits start count fuel o.online_users (members_of excluded_gid o.groups) start
      false c s n e refl
