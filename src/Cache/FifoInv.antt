-- ===== src/Cache/FifoInv.antt =====
-- The invariant of `FIFOCache`, and which entries the loop of `set` drops.
use bcm_server.Base.{
  ==_refl, Bool-cases, Key, List, Map, Option, Option-cases, [], ap, arith, elem, elem-append,
  emplace, erase, false, inl, inr, is_empty, is_some, leb, lookup, lookup-emplace, lookup-erase,
  none, refl, some, sym, true, ℕ, ◌++◌, ◌+◌, ◌-◌, ◌||◌, ◌∙◌, ◌∷◌, ◌≡◌, ◌≤◌, str_key, nat_key,
}
use mathlib.Core.List.{append_assoc}
use bcm_server.Cache.Fifo.{FifoCache, make_room, take_out}

unfoldable pub weigh {ℓ} : {V : Type ℓ} → (V → ℕ) → Option V → ℕ
weigh weight none = 0
weigh weight (some v) = weight v

unfoldable pub Once {ℓ} : {K : Type ℓ} ⦃e : Key K⦄ → List K → Type 0
Once [] = Unit
Once (k ∷ ks) = (elem k ks ≡ false) × Once ks

pub Once-append_last {ℓ} :
    {K : Type ℓ} ⦃e : Key K⦄ (ks : List K) (k : K)
    → Once ks
    → elem k ks ≡ false
    → Once (ks ++ k ∷ [])
unfolding Once elem
Once-append_last [] k o h = (refl, tt)
Once-append_last ⦃e⦄ (j ∷ ks) k o h = (
  ground (arith, elem-append j ks (k ∷ []), o.0, e.beq_iff j k, e.beq_iff k j),
  Once-append_last ks k o.1 (ground arith),
)

module _ {ℓ} {K V : Type ℓ} ⦃e : Key K⦄ (weight : V → ℕ) where
  unfoldable pub total : List K → Map K V → ℕ
  unfolding weigh
  total [] m = 0
  total (k ∷ ks) m = weigh weight (lookup k m) + total ks m

  -- The size is the weight of the entries and within the limit; the keys of the queue are those of the
  -- map, each once.
  pub record Inv (s : FifoCache K V) : Type ℓ where
    pub weighed : s.size ≡ total s.sequence s.caches
    pub within : s.size ≤ s.limit
    pub queued : (j : K) → is_some (lookup j s.caches) ≡ elem j s.sequence
    pub once : Once s.sequence

  total-erase :
      (k : K) (ks : List K) (m : Map K V) → elem k ks ≡ false → total ks (erase k m) ≡ total ks m
  unfolding total elem
  total-erase k [] m h = refl
  total-erase k (j ∷ ks) m h =
      ground (arith, total-erase k ks m, lookup-erase k j m, e.beq_iff k j, e.beq_iff j k)

  pub total-emplace :
      (k : K) (v : V) (ks : List K) (m : Map K V)
      → elem k ks ≡ false
      → total ks (emplace k v m) ≡ total ks m
  unfolding total elem
  total-emplace k v [] m h = refl
  total-emplace k v (j ∷ ks) m h =
      ground (arith, total-emplace k v ks m, lookup-emplace k j v m, e.beq_iff k j, e.beq_iff j k)

  pub total-append : (ks js : List K) (m : Map K V) → total (ks ++ js) m ≡ total ks m + total js m
  unfolding total
  total-append [] js m = omega arith
  total-append (k ∷ ks) js m = omega (arith, total-append ks js m)

  -- What is left of `s` when the oldest entries have gone.
  pub record Left (s t : FifoCache K V) : Type ℓ where
    pub sound : Inv t
    pub limits : t.limit ≡ s.limit
    pub dropped : (gone : List K) × (s.sequence ≡ gone ++ t.sequence)
    pub stays : (j : K) → elem j t.sequence ≡ true → lookup j t.caches ≡ lookup j s.caches

  unfoldable pub queue : List K → FifoCache K V → FifoCache K V
  queue ks s = record s { sequence = ks }

  less : K → V → List K → FifoCache K V → FifoCache K V
  less k v ks s = record s { size = s.size - weight v; caches = erase k s.caches; sequence = ks }

  oldest :
      (k : K) (ks : List K) (s : FifoCache K V)
      → Inv (queue (k ∷ ks) s)
      → (v : V) × (lookup k s.caches ≡ some v)
  unfolding queue elem
  oldest k ks s i = elim (Option-cases (lookup k s.caches)) [
    | inl absent ↦ ground (arith, i.queued k, ==_refl k)
    | inr there ↦ there
  ]

  take_out-less :
      (k : K) (v : V) (ks : List K) (s : FifoCache K V)
      → Inv (queue (k ∷ ks) s)
      → lookup k s.caches ≡ some v
      → take_out weight k ks (lookup k s.caches) (queue (k ∷ ks) s) ≡ less k v ks s
  unfolding take_out queue less total weigh
  take_out-less k v ks s i there =
      let heavy : weight v ≤ s.size = ground (arith, i.weighed) in ground (arith, heavy)

  less-Left :
      (k : K) (v : V) (ks : List K) (s : FifoCache K V)
      → Inv (queue (k ∷ ks) s)
      → lookup k s.caches ≡ some v
      → Left (queue (k ∷ ks) s) (less k v ks s)
  unfolding queue less total weigh Once elem
  less-Left k v ks s i there = record {
    sound = record {
      weighed = ground (arith, i.weighed, total-erase k ks s.caches i.once.0);
      within = omega (arith, i.within);
      queued = λ j. ground (arith, i.queued j, lookup-erase k j s.caches, e.beq_iff k j, i.once.0);
      once = i.once.1;
    };
    limits = refl;
    dropped = (k ∷ [], refl);
    stays = λ j h. ground (arith, lookup-erase k j s.caches, e.beq_iff k j, i.once.0);
  }

  elem_in_rest :
      (j : K) (gone rest all : List K) → all ≡ gone ++ rest → elem j rest ≡ true → elem j all ≡ true
  elem_in_rest j gone rest all q h = rw q (elem-append j gone rest ∙ ground (arith, h))

  empty_queue : (ks : List K) (m : Map K V) → is_empty ks ≡ true → total ks m ≡ 0
  unfolding total
  empty_queue [] m h = refl
  empty_queue (k ∷ ks) m h = cc

  less_room :
      (need : ℕ) (k : K) (v : V) (ks : List K) (s : FifoCache K V)
      → need ≤ s.limit
      → Inv (less k v ks s)
      → (is_empty ks || leb (need + (less k v ks s).size) s.limit) ≡ true
      → need + (less k v ks s).size ≤ s.limit
  unfolding less
  less_room need k v ks s h i q = ground (arith, i.weighed, empty_queue ks (erase k s.caches))

  Left-trans : (s t u : FifoCache K V) → Left s t → Left t u → Left s u
  Left-trans s t u a b = record {
    sound = b.sound;
    limits = b.limits ∙ a.limits;
    dropped = (
      a.dropped.0 ++ b.dropped.0,
      a.dropped.1
          ∙ ap (λ r. a.dropped.0 ++ r) b.dropped.1
          ∙ sym (append_assoc a.dropped.0 b.dropped.0 u.sequence),
    );
    stays = λ j h.
        b.stays j h ∙ a.stays j (elem_in_rest j b.dropped.0 u.sequence t.sequence b.dropped.1 h);
  }

  -- The loop ends with room for `need` bytes.
  pub make_room-Left :
      (need : ℕ) (ks : List K) (s : FifoCache K V)
      → need ≤ s.limit
      → Inv (queue ks s)
      → let out = make_room weight need ks (queue ks s) in
        Left (queue ks s) out × (need + out.size ≤ out.limit)
  unfolding make_room queue total less
  make_room-Left need [] s h i =
      let empty : s.size ≡ 0 = i.weighed in
      (
        record { sound = i; limits = refl; dropped = ([], refl); stays = λ j q. refl },
        omega (arith, empty),
      )
  make_room-Left need (k ∷ ks) s h i =
      let (v, there) = oldest k ks s i in
      let out = less k v ks s in
      let first = less-Left k v ks s i there in
      rw (take_out-less k v ks s i there)
        (elim (Bool-cases (is_empty ks || leb (need + out.size) s.limit)) [
          | inl done ↦ rw done (first, less_room need k v ks s h first.sound done)
          | inr on ↦
              let rest = make_room-Left need ks out h first.sound in
              rw on (
                Left-trans (queue (k ∷ ks) s) out (make_room weight need ks out) first rest.0,
                rest.1,
              )
        ])
