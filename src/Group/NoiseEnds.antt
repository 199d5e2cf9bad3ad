-- ===== src/Group/NoiseEnds.antt =====
-- The search for receivers of noise from the first user on.
use mathlib.Core.List.{append_assoc}
use bcm_server.Base.{
  All, Bool, Bool-cases, List, Map, Str, [], ap, arith, eqb, false, if◌then◌else◌, inl, inr,
  is_empty, is_some, length, length-append, refl, some, str_less, subst, suc, sym, true, zero, ℕ,
  ◌++◌, ◌<◌, ◌∙◌, ◌∷◌, ◌≡◌, ◌≤◌, ◌⊎◌, str_key, nat_key,
}
use bcm_server.Dispatch.Address.{DispatchAddress, address_key}
use bcm_server.Group.Online.{Online}
use bcm_server.Group.Sets.{members_of}
use bcm_server.Group.Noise.{
  Choice, after, choose, fitting, get_online_users, pick_batch, pick_devices, take_candidates,
}

abbrev pub Users : Type 0
Users = Map Str (List DispatchAddress)

-- The users stand in the order of their names, each once, as in a `std::map`.
abbrev pub Sorted : Users → Type 0
Sorted [] = Unit
Sorted (e ∷ m) = All (λ (f : Str × List DispatchAddress). str_less e.0 f.0 ≡ true) m × Sorted m

str_less_irrefl : (s : Str) → str_less s s ≡ false
str_less_irrefl [] = refl
str_less_irrefl (x ∷ s) = ground (arith, str_less_irrefl s)

str_less_asym : (s t : Str) → str_less s t ≡ true → str_less t s ≡ false
str_less_asym s [] h = cc
str_less_asym [] (y ∷ t) h = refl
str_less_asym (x ∷ s) (y ∷ t) h = ground (arith, str_less_asym s t)

All_middle :
    {A : Type 0} (P : A → Type 0) (before : List A) (x : A) (behind : List A)
    → All P (before ++ x ∷ behind)
    → P x
All_middle P [] x behind h = h.0
All_middle P (y ∷ before) x behind h = All_middle P before x behind h.1

after_key :
    (before : Users) (k : Str) (devices : List DispatchAddress) (behind : Users)
    → Sorted (before ++ (k, devices) ∷ behind)
    → after k (before ++ (k, devices) ∷ behind) ≡ behind
unfolding after
after_key [] k devices [] h = rw (str_less_irrefl k) refl
after_key [] k devices ((j, d) ∷ behind) h = rw (str_less_irrefl k, h.0.0) refl
after_key ((j, d) ∷ before) k devices behind h =
    let later = str_less_asym j k (
      All_middle (λ (f : Str × List DispatchAddress). str_less j f.0 ≡ true) before (k, devices)
        behind h.0) in
    rw later (after_key before k devices behind h.1)

after_behind : (at : Str) (m : Users) → (before : Users) × (m ≡ before ++ after at m)
unfolding after
after_behind at [] = ([], refl)
after_behind at ((uid, devices) ∷ m) = elim (Bool-cases (str_less at uid)) [
  | inl here ↦ ([], rw here refl)
  | inr later ↦
      let (before, p) = after_behind at m in
      ((uid, devices) ∷ before, rw later (ap (λ r. (uid, devices) ∷ r) p))
]

-- A batch stays where it is and takes nobody, or it moves on to one of the users.
Moved : Users → Str → Type 0
Moved m next =
    (before : Users) × (devices : List DispatchAddress) × (behind : Users) × (m
      ≡ before ++ (next, devices) ∷ behind)

batch_moves :
    (excluded : List DispatchAddress) (m : Users) (b : ℕ) (at : Str) (users : List DispatchAddress)
    → (pick_batch excluded m b at users ≡ (at, users))
      ⊎ Moved m (pick_batch excluded m b at users).0
unfolding pick_batch Moved
batch_moves excluded [] b at users = inl refl
batch_moves excluded ((uid, devices) ∷ m) b at users = elim (Bool-cases (eqb b 0)) [
  | inl done ↦ inl (rw done refl)
  | inr on ↦
      let (b', users') = pick_devices excluded devices b users in
      elim (batch_moves excluded m b' uid users') [
        | inl same ↦ inr (rw (on, same) ([], devices, m, refl))
        | inr (before, d, behind, p) ↦
            inr (rw on ((uid, devices) ∷ before, d, behind, ap (λ r. (uid, devices) ∷ r) p))
      ]
]

next_shorter :
    (m : Users) (at next : Str)
    → Sorted m
    → Moved (after at m) next
    → length (after next m) < length (after at m)
unfolding Moved
next_shorter m at next h (before, devices, behind, p) =
    let (first, q) = after_behind at m in
    let whole : m ≡ (first ++ before) ++ (next, devices) ∷ behind =
      q ∙ ap (λ r. first ++ r) p ∙ sym (append_assoc first before ((next, devices) ∷ behind)) in
    let rest : after next m ≡ behind =
      ap (λ r. after next r) whole
      ∙ after_key (first ++ before) next devices behind (subst Sorted whole h) in
    omega (arith, ap length rest, ap length p, length-append before ((next, devices) ∷ behind))

module _ (fits : DispatchAddress → Bool) (count : ℕ) (online : Users)
    (excluded : List DispatchAddress) where
  -- One round of the loop before it has started over.
  round :
      (f : ℕ) (at : Str) (c : Choice)
      → let batch = pick_batch excluded (after at online) count at [] in
        let taken = take_candidates count (fitting fits batch.1) c in
        choose fits [] count (suc f) online excluded at false c ≡ (
          if is_empty online
          then some (record c { result = [] })
          else (if is_empty batch.1
              then choose fits [] count f online excluded [] true c
              else (if taken.1
                  then some taken.0
                  else choose fits [] count f online excluded batch.0 false taken.0)))
  unfolding choose
  round f at c = refl

  over_ends :
      (f : ℕ) (c : Choice) → is_some (choose fits [] count (suc f) online excluded [] true c) ≡ true
  unfolding choose
  over_ends f c = refl

  batch_shorter :
      {f : ℕ} (at : Str)
      → Sorted online
      → is_empty (pick_batch excluded (after at online) count at []).1 ≡ false
      → length (after at online) < suc f
      → length (after (pick_batch excluded (after at online) count at []).0 online) < f
  batch_shorter at h somebody p = elim (batch_moves excluded (after at online) count at []) [
    | inl same ↦ ground (arith, rw same at somebody)
    | inr moved ↦ omega (
      arith,
      p,
      next_shorter online at (pick_batch excluded (after at online) count at []).0 h moved,
    )
  ]

  choose_ends :
      (f : ℕ) (at : Str) (c : Choice)
      → Sorted online
      → length (after at online) < f
      → is_some (choose fits [] count (suc f) online excluded at false c) ≡ true
  choose_ends zero at c h p = ground arith
  choose_ends (suc f) at c h p =
      let batch = pick_batch excluded (after at online) count at [] in
      let taken = take_candidates count (fitting fits batch.1) c in
      elim (Bool-cases (is_empty online)) [
        | inl idle ↦ rw (round (suc f) at c, idle) refl
        | inr busy ↦ elim (Bool-cases (is_empty batch.1)) [
          | inl nobody ↦ rw (round (suc f) at c, busy, nobody) (over_ends f c)
          | inr somebody ↦ elim (Bool-cases taken.1) [
            | inl returns ↦ rw (round (suc f) at c, busy, somebody, returns) refl
            | inr on ↦
                rw (round (suc f) at c, busy, somebody, on)
                  (choose_ends f batch.0 taken.0 h (batch_shorter at h somebody p))
          ]
        ]
      ]

-- When the search starts at "" and the users who are online stand in the order of a map, the loop
-- returns within two rounds more than there are users, whoever is excluded and whoever fits.
pub get_online_users_ends :
    (fits : DispatchAddress → Bool) (count : ℕ) (o : Online) (excluded_gid : ℕ) (c : Choice)
    → Sorted o.online_users
    → is_some (get_online_users fits [] count (suc (suc (length o.online_users))) o excluded_gid c)
      ≡ true
unfolding get_online_users
get_online_users_ends fits count o excluded_gid c h =
    let m = o.online_users in
    let (first, q) = after_behind [] m in
    let less : length (after [] m) ≤ length m =
      omega (arith, ap length q, length-append first (after [] m)) in
    choose_ends fits count m (members_of excluded_gid o.groups) (suc (length m)) [] c h
      (omega (arith, less))
