-- ===== src/Group/NoiseChoice.antt =====
-- Who is chosen as a receiver of noise.
use bcm_server.Base.{
  All, Bool, Bool-cases, List, Map, Option, Option-cases, Str, [], add, arith, elem, eqb, false,
  if◌then◌else◌, inl, inr, is_empty, leb, length, none, not, some, str_less, subst, suc, true, zero,
  ℕ, ◌&&◌, ◌-◌, ◌==◌, ◌∷◌, ◌≡◌, ◌≺◌, str_key, nat_key,
}
use bcm_server.Dispatch.Address.{DispatchAddress, address_key}
use bcm_server.Group.Online.{Online}
use bcm_server.Group.Sets.{members_of}
use bcm_server.Group.NoiseEnds.{Sorted, get_online_users_ends}
use bcm_server.Group.Noise.{
  Choice, after, choose, fitting, get_online_users, pick_batch, pick_devices, take_candidates,
}

All-add :
    (P : DispatchAddress → Type 0) (a : DispatchAddress) (xs : List DispatchAddress)
    → P a
    → All P xs
    → All P (add a xs)
unfolding add
All-add P a [] p h = (p, tt)
All-add P a (x ∷ xs) p h = elim (Bool-cases (x == a)) [
  | inl same ↦ rw same h
  | inr other ↦ elim (Bool-cases (a ≺ x)) [
    | inl before ↦ rw (other, before) (p, h)
    | inr behind ↦ rw (other, behind) (h.0, All-add P a xs p h.1)
  ]
]

-- A property of both branches is one of the conditional.
either {ℓ} : {A : Type 0} (P : A → Type ℓ) (b : Bool) (x y : A) → P x → P y → P (if b then x else y)
either P true x y p q = p
either P false x y p q = q

module _ (fits : DispatchAddress → Bool) (excluded : List DispatchAddress) where
  abbrev Outside : DispatchAddress → Type 0
  Outside a = elem a excluded ≡ false

  abbrev pub Chosen : DispatchAddress → Type 0
  Chosen a = (elem a excluded ≡ false) × (fits a ≡ true)

  pick_devices-All :
      (devices : List DispatchAddress) (b : ℕ) (users : List DispatchAddress)
      → All Outside users
      → All Outside (pick_devices excluded devices b users).1
  unfolding pick_devices
  pick_devices-All [] b users h = h
  pick_devices-All (a ∷ as') b users h =
      let kept : All Outside (if elem a excluded then users else add a users) =
        elim (Bool-cases (elem a excluded)) [
          | inl skip ↦ rw skip h
          | inr take ↦ rw take (All-add Outside a users take h)
        ] in
      let b' = if elem a excluded then b else b - 1 in
      let users' = if elem a excluded then users else add a users in
      either (λ (r : ℕ × List DispatchAddress). All Outside r.1) (eqb b' 0) (b', users')
        (pick_devices excluded as' b' users') kept (pick_devices-All as' b' users' kept)

  pick_batch-All :
      (m : Map Str (List DispatchAddress)) (b : ℕ) (at : Str) (users : List DispatchAddress)
      → All Outside users
      → All Outside (pick_batch excluded m b at users).1
  unfolding pick_batch
  pick_batch-All [] b at users h = h
  pick_batch-All ((uid, devices) ∷ m) b at users h =
      let (b', users') = pick_devices excluded devices b users in
      either (λ (r : Str × List DispatchAddress). All Outside r.1) (eqb b 0) (at, users)
        (pick_batch excluded m b' uid users') h
        (pick_batch-All m b' uid users' (pick_devices-All devices b users h))

  fitting-All : (users : List DispatchAddress) → All Outside users → All Chosen (fitting fits users)
  unfolding fitting
  fitting-All [] h = tt
  fitting-All (a ∷ as') h = elim (Bool-cases (fits a)) [
    | inl yea ↦ rw yea ((h.0, yea), fitting-All as' h.1)
    | inr nay ↦ rw nay (fitting-All as' h.1)
  ]

  take_candidates-All :
      (count : ℕ) (users : List DispatchAddress) (c : Choice)
      → All Chosen users
      → All Chosen c.result
      → All Chosen (take_candidates count users c).0.result
  unfolding take_candidates
  take_candidates-All count [] c h k = k
  take_candidates-All count (a ∷ as') c h k =
      let c' : Choice = record { result = add a c.result; last_noise_uid = a.uid } in
      let kept = All-add Chosen a c.result h.0 k in
      either (λ (r : Choice × Bool). All Chosen r.0.result) (elem a c.result) (c, true)
        (if leb count (length c'.result) then (c', true) else take_candidates count as' c') k
        (either (λ (r : Choice × Bool). All Chosen r.0.result) (leb count (length c'.result))
          (c', true) (take_candidates count as' c') kept
          (take_candidates-All count as' c' h.1 kept))

  OfChosen : Option Choice → Type 0
  OfChosen none = Unit
  OfChosen (some c) = All Chosen c.result

  choose-OfChosen :
      (start : Str) (count f : ℕ) (online : Map Str (List DispatchAddress)) (at : Str) (over : Bool)
      (c : Choice)
      → All Chosen c.result
      → OfChosen (choose fits start count f online excluded at over c)
  unfolding choose OfChosen
  choose-OfChosen start count zero online at over c h = tt
  choose-OfChosen start count (suc f) online at over c h =
      let batch = pick_batch excluded (after at online) count at [] in
      let taken = take_candidates count (fitting fits batch.1) c in
      let kept =
        take_candidates-All count (fitting fits batch.1) c
          (fitting-All batch.1 (pick_batch-All (after at online) count at [] tt)) h in
      let cleared : Choice = record c { result = [] } in
      let again = choose fits start count f online excluded [] true c in
      let on = choose fits start count f online excluded batch.0 over taken.0 in
      let met = if taken.1 then some taken.0 else on in
      let found = if is_empty batch.1 then again else met in
      either OfChosen (over && not (str_less at start)) (some c)
        (if is_empty online then some cleared else found) h
        (either OfChosen (is_empty online) (some cleared) found tt (
          either OfChosen (is_empty batch.1) again met
            (choose-OfChosen start count f online [] true c h)
            (either OfChosen taken.1 (some taken.0) on kept
              (choose-OfChosen start count f online batch.0 over taken.0 kept))))

-- A search that starts at "" among users in the order of a map, with only chosen users so far, returns
-- within two rounds more than there are users, and then everybody in its result fits and is not excluded.
pub get_online_users-Chosen :
    (fits : DispatchAddress → Bool) (count : ℕ) (o : Online) (excluded_gid : ℕ) (c : Choice)
    → Sorted o.online_users
    → All (Chosen fits (members_of excluded_gid o.groups)) c.result
    → (c' : Choice) × (get_online_users fits [] count
          (suc (suc (length o.online_users)))
          o
          excluded_gid
          c
        ≡ some c')
      × All (Chosen fits (members_of excluded_gid o.groups)) c'.result
unfolding get_online_users OfChosen
get_online_users-Chosen fits count o excluded_gid c h k =
    let excluded = members_of excluded_gid o.groups in
    let fuel = suc (suc (length o.online_users)) in
    let ends = get_online_users_ends fits count o excluded_gid c h in
    elim (Option-cases (get_online_users fits [] count fuel o excluded_gid c)) [
      | inl never ↦ ground (arith, rw never at ends)
      | inr (c', p) ↦ (
        c',
        p,
        subst (OfChosen fits excluded) p
            (choose-OfChosen fits excluded [] count fuel o.online_users [] false c k),
      )
    ]
