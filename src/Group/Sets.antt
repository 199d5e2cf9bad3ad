-- ===== src/Group/Sets.antt =====
-- `std::map<uint64_t, std::set<A>>`, as the member managers use it: `m[gid].insert(a)`, and the
-- removal that also drops a set when it becomes empty.
use bcm_server.Base.{
  Bool, Key, List, Map, Option, [], add, arith, elem, elem-add, elem-remove, eqb, erase, false,
  if◌then◌else◌, insert, is_empty, is_some, lookup, lookup-erase, lookup-insert, none, or_else,
  refl, remove, some, true, ℕ, ◌&&◌, ◌==◌, ◌||◌, ◌∷◌, ◌≡◌, ◌≢◌, str_key, nat_key,
}

module _ {A : Type 0} ⦃e : Key A⦄ where
  -- `m[gid].insert(a)`.
  unfoldable pub join : A → ℕ → Map ℕ (List A) → Map ℕ (List A)
  join a gid m = insert gid (add a (or_else (lookup gid m) [])) m

  shrink : A → ℕ → Map ℕ (List A) → Option (List A) → Map ℕ (List A)
  shrink a gid m none = m
  shrink a gid m (some s) =
      let s' = remove a s in if is_empty s' then erase gid m else insert gid s' m

  -- The `...NoLock` removals.
  unfoldable pub leave : A → ℕ → Map ℕ (List A) → Map ℕ (List A)
  unfolding shrink
  leave a gid m = shrink a gid m (lookup gid m)

  unfoldable pub leave_all : A → List ℕ → Map ℕ (List A) → Map ℕ (List A)
  leave_all a [] m = m
  leave_all a (g ∷ gs) m = leave_all a gs (leave a g m)

  unfoldable pub all_leave : List A → ℕ → Map ℕ (List A) → Map ℕ (List A)
  all_leave [] gid m = m
  all_leave (a ∷ as') gid m = all_leave as' gid (leave a gid m)

  abbrev pub members_of : ℕ → Map ℕ (List A) → List A
  members_of gid m = or_else (lookup gid m) []

  unfoldable pub has : A → ℕ → Map ℕ (List A) → Bool
  has a gid m = elem a (members_of gid m)

  -- No group stands with an empty set.
  abbrev pub NoEmpty : Map ℕ (List A) → Type 0
  NoEmpty m = (g : ℕ) → lookup g m ≢ some []

  pub has-join :
      (a b : A) (g h : ℕ) (m : Map ℕ (List A))
      → has b h (join a g m) ≡ ((eqb g h && a == b) || has b h m)
  unfolding has join
  has-join a b g h m = ground (
    arith,
    lookup-insert g h (add a (or_else (lookup g m) [])) m,
    elem-add a b (or_else (lookup g m) []),
  )

  is_empty-elem : (b : A) (xs : List A) → is_empty xs ≡ true → elem b xs ≡ false
  unfolding elem
  is_empty-elem b [] h = refl
  is_empty-elem b (x ∷ xs) h = cc

  has-shrink :
      (a b : A) (g h : ℕ) (m : Map ℕ (List A)) (o : Option (List A))
      → lookup g m ≡ o
      → has b h (shrink a g m o) ≡ (if eqb g h && a == b then false else has b h m)
  unfolding has shrink elem
  has-shrink a b g h m none p = ground (arith, e.beq_iff a b)
  has-shrink a b g h m (some s) p = ground (
    arith,
    lookup-insert g h (remove a s) m,
    lookup-erase g h m,
    elem-remove a b s,
    is_empty-elem b (remove a s),
  )

  pub has-leave :
      (a b : A) (g h : ℕ) (m : Map ℕ (List A))
      → has b h (leave a g m) ≡ (if eqb g h && a == b then false else has b h m)
  unfolding leave
  has-leave a b g h m = has-shrink a b g h m (lookup g m) refl

  add-ne-nil : (a : A) (xs : List A) → add a xs ≢ []
  unfolding add
  add-ne-nil a [] h = cc
  add-ne-nil a (x ∷ xs) h = ground arith

  pub join-NoEmpty : (a : A) (g : ℕ) (m : Map ℕ (List A)) → NoEmpty m → NoEmpty (join a g m)
  unfolding join
  join-NoEmpty a g m h k p = ground (
    arith,
    lookup-insert g k (add a (or_else (lookup g m) [])) m,
    add-ne-nil a (or_else (lookup g m) []),
    h k,
  )

  shrink-NoEmpty :
      (a : A) (g : ℕ) (m : Map ℕ (List A)) (o : Option (List A))
      → NoEmpty m
      → NoEmpty (shrink a g m o)
  unfolding shrink
  shrink-NoEmpty a g m none h k p = h k p
  shrink-NoEmpty a g m (some s) h k p =
      ground (arith, lookup-insert g k (remove a s) m, lookup-erase g k m, h k)

  pub leave-NoEmpty : (a : A) (g : ℕ) (m : Map ℕ (List A)) → NoEmpty m → NoEmpty (leave a g m)
  unfolding leave
  leave-NoEmpty a g m h = shrink-NoEmpty a g m (lookup g m) h

  pub erase-NoEmpty : (g : ℕ) (m : Map ℕ (List A)) → NoEmpty m → NoEmpty (erase g m)
  erase-NoEmpty g m h k p = ground (arith, lookup-erase g k m, h k)

  pub has-erase :
      (b : A) (g h : ℕ) (m : Map ℕ (List A))
      → has b h (erase g m) ≡ (if eqb g h then false else has b h m)
  unfolding has elem
  has-erase b g h m = ground (arith, lookup-erase g h m)

  pub there-join :
      (a : A) (g h : ℕ) (m : Map ℕ (List A))
      → is_some (lookup h (join a g m)) ≡ (eqb g h || is_some (lookup h m))
  unfolding join
  there-join a g h m = ground (arith, lookup-insert g h (add a (or_else (lookup g m) [])) m)

  there-shrink :
      (a : A) (g h : ℕ) (m : Map ℕ (List A)) (o : Option (List A))
      → lookup g m ≡ o
      → is_some (lookup h (shrink a g m o)) ≡ true
      → is_some (lookup h m) ≡ true
  unfolding shrink
  there-shrink a g h m none p q = q
  there-shrink a g h m (some s) p q =
      ground (arith, lookup-insert g h (remove a s) m, lookup-erase g h m)

  -- Leaving makes no group appear.
  pub there-leave :
      (a : A) (g h : ℕ) (m : Map ℕ (List A))
      → is_some (lookup h (leave a g m)) ≡ true
      → is_some (lookup h m) ≡ true
  unfolding leave
  there-leave a g h m q = there-shrink a g h m (lookup g m) refl q

  pub there-leave_all :
      (a : A) (gs : List ℕ) (h : ℕ) (m : Map ℕ (List A))
      → is_some (lookup h (leave_all a gs m)) ≡ true
      → is_some (lookup h m) ≡ true
  unfolding leave_all
  there-leave_all a [] h m q = q
  there-leave_all a (g ∷ gs) h m q = there-leave a g h m (there-leave_all a gs h (leave a g m) q)

  pub there-all_leave :
      (as' : List A) (g h : ℕ) (m : Map ℕ (List A))
      → is_some (lookup h (all_leave as' g m)) ≡ true
      → is_some (lookup h m) ≡ true
  unfolding all_leave
  there-all_leave [] g h m q = q
  there-all_leave (a ∷ as') g h m q = there-leave a g h m (there-all_leave as' g h (leave a g m) q)
