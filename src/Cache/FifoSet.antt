-- ===== src/Cache/FifoSet.antt =====
-- `set` in a sound `FIFOCache`.
use bcm_server.Base.{
  ==_refl, Bool-cases, Key, List, Option-cases, [], arith, elem, elem-append, emplace, false,
  if◌then◌else◌, inl, inr, lookup, lookup-emplace, ltb, none, refl, some, true, ℕ, ◌++◌, ◌+◌, ◌∷◌,
  ◌≡◌, ◌≤◌, str_key, nat_key,
}
use bcm_server.Cache.Fifo.{FifoCache, make_room, set_cache}
use bcm_server.Cache.FifoInv.{
  Inv, Left, Once-append_last, make_room-Left, queue, total, total-append, total-emplace, weigh,
}

module _ {ℓ} {K V : Type ℓ} ⦃e : Key K⦄ (weight : V → ℕ) where
  -- What a `set` of a new key that fits makes: the oldest entries may have gone, and `k` comes last.
  pub record Stored (k : K) (v : V) (s t : FifoCache K V) : Type ℓ where
    pub stored : Inv weight t
    pub found : lookup k t.caches ≡ some v
    pub kept : List K
    pub fifo : (gone : List K) × (s.sequence ≡ gone ++ kept)
    pub last : t.sequence ≡ kept ++ k ∷ []
    pub others : (j : K) → elem j kept ≡ true → lookup j t.caches ≡ lookup j s.caches

  put : K → V → FifoCache K V → FifoCache K V
  put k v s = record s {
    size = s.size + weight v;
    caches = emplace k v s.caches;
    sequence = s.sequence ++ k ∷ [];
  }

  absent_in_rest :
      (k : K) (gone rest all : List K)
      → all ≡ gone ++ rest
      → elem k all ≡ false
      → elem k rest ≡ false
  absent_in_rest k gone rest all q h = ground (arith, elem-append k gone rest, rw q at h)

  put-Stored :
      (k : K) (v : V) (s t : FifoCache K V)
      → Inv weight s
      → Left weight s t
      → lookup k s.caches ≡ none
      → weight v + t.size ≤ t.limit
      → Stored k v s (put k v t)
  unfolding put elem total weigh
  put-Stored k v s t i l absent room =
      let fresh : elem k t.sequence ≡ false =
        absent_in_rest k l.dropped.0 t.sequence s.sequence l.dropped.1
          (ground (arith, absent, i.queued k)) in
      let free : lookup k t.caches ≡ none = ground (arith, l.sound.queued k, fresh) in
      let caches = emplace k v t.caches in
      let there : lookup k caches ≡ some v =
        ground (arith, lookup-emplace k k v t.caches, ==_refl k, free) in
      let more = total-append weight t.sequence (k ∷ []) caches in
      let same = total-emplace weight k v t.sequence t.caches fresh in
      record {
        stored = record {
          weighed = ground (arith, there, more, same, l.sound.weighed);
          within = omega (arith, room);
          queued = λ j. ground (
            arith,
            elem-append j t.sequence (k ∷ []),
            lookup-emplace k j v t.caches,
            l.sound.queued j,
          );
          once = Once-append_last t.sequence k l.sound.once fresh;
        };
        found = there;
        kept = t.sequence;
        fifo = l.dropped;
        last = refl;
        others =
            λ j h. ground (arith, l.stays j h, lookup-emplace k j v t.caches, e.beq_iff k j, fresh);
      }

  room-Left :
      (need : ℕ) (s : FifoCache K V)
      → need ≤ s.limit
      → Inv weight s
      → let room = if ltb s.limit (need + s.size) then make_room weight need s.sequence s else s in
        Left weight s room × (need + room.size ≤ room.limit)
  unfolding queue
  room-Left need s h i = elim (Bool-cases (ltb s.limit (need + s.size))) [
    | inl tight ↦ rw tight (make_room-Left weight need s.sequence s h i)
    | inr fits ↦ rw fits (
      record { sound = i; limits = refl; dropped = ([], refl); stays = λ j q. refl },
      ground (arith, fits),
    )
  ]

  -- In a sound cache, `set` of a key that is not there and whose value is not heavier than the limit
  -- succeeds: the key then has the value and stands last in the queue, the cache is sound again, only
  -- entries from the front of the queue have gone, and those that are left have their values.
  pub set_cache-Stored :
      (k : K) (v : V) (s : FifoCache K V)
      → Inv weight s
      → lookup k s.caches ≡ none
      → weight v ≤ s.limit
      → let (ok, t) = set_cache weight k v s in (ok ≡ true) × Stored k v s t
  unfolding set_cache put
  set_cache-Stored k v s i absent light =
      let need = weight v in
      let room = if ltb s.limit (need + s.size) then make_room weight need s.sequence s else s in
      let made = room-Left need s light i in
      let fits : ltb s.limit (weight v) ≡ false = ground (arith, light) in
      rw (fits, absent) (refl, put-Stored k v s room i made.0 absent made.1)

  -- `set` keeps a cache sound, whatever it is given.
  pub set_cache-Inv :
      (k : K) (v : V) (s : FifoCache K V) → Inv weight s → Inv weight (set_cache weight k v s).1
  unfolding set_cache
  set_cache-Inv k v s i = elim (Bool-cases (ltb s.limit (weight v))) [
    | inl heavy ↦ rw heavy i
    | inr light ↦ elim (Option-cases (lookup k s.caches)) [
      | inl absent ↦ (set_cache-Stored k v s i absent (ground (arith, light))).1.stored
      | inr (w, there) ↦ rw (light, there) i
    ]
  ]
