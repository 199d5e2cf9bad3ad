-- ===== src/Base/Maps.antt =====
-- `std::map` and `std::set` as lists in key order.
use mathlib.Core.Path.{◌≡◌, refl}
use mathlib.Core.Bool.{Bool, false, ◌||◌}
use mathlib.Core.Option.{Option, none, some}
use mathlib.Core.List.{List, [], ◌∷◌, ◌++◌}
use native.Mathlib.Omega.{arith}
use bcm_server.Base.Tests.{Bool-cases, Option-cases, if◌then◌else◌, is_some, or_else}
use mathlib.Core.Path.{◌∙◌}
use mathlib.Core.Logic.{inl, inr}
use bcm_server.Base.Order.{Key, ◌==◌, ◌≺◌}

abbrev pub Map {ℓ κ} : Type ℓ → Type κ → Type (ℓ ⊔ κ)
Map K V = List (K × V)

module _ {ℓ κ} {K : Type ℓ} {V : Type κ} ⦃e : Key K⦄ where
  unfoldable pub lookup : K → Map K V → Option V
  lookup k [] = none
  lookup k ((i, x) ∷ rest) = if i == k then some x else lookup k rest

  -- `m[k] = v`.
  unfoldable pub insert : K → V → Map K V → Map K V
  insert k v [] = (k, v) ∷ []
  insert k v ((i, x) ∷ rest) =
      if i == k
      then (k, v) ∷ rest
      else (if k ≺ i then (k, v) ∷ (i, x) ∷ rest else (i, x) ∷ insert k v rest)

  unfoldable pub erase : K → Map K V → Map K V
  erase k [] = []
  erase k ((j, v) ∷ m) = if j == k then erase k m else (j, v) ∷ erase k m

  -- `m.emplace(k, v)` leaves a key that is there as it is.
  unfoldable pub emplace : K → V → Map K V → Map K V
  unfolding lookup
  emplace k v m = if is_some (lookup k m) then m else insert k v m

  pub lookup-insert :
      (a b : K) (x : V) (m : Map K V)
      → lookup b (insert a x m) ≡ (if a == b then some x else lookup b m)
  unfolding lookup insert
  lookup-insert a b x [] = refl
  lookup-insert a b x ((c, y) ∷ rest) =
      ground (arith, e.beq_iff a b, e.beq_iff c a, e.beq_iff c b, lookup-insert a b x rest)

  pub lookup-erase :
      (k j : K) (m : Map K V) → lookup j (erase k m) ≡ (if k == j then none else lookup j m)
  unfolding lookup erase
  lookup-erase k j [] = ground arith
  lookup-erase k j ((i, w) ∷ m) =
      ground (arith, e.beq_iff i k, e.beq_iff i j, e.beq_iff k j, lookup-erase k j m)

  pub lookup-emplace :
      (k j : K) (v : V) (m : Map K V)
      → lookup j (emplace k v m) ≡ (if k == j then some (or_else (lookup k m) v) else lookup j m)
  unfolding emplace
  lookup-emplace k j v m = ground (arith, e.beq_iff k j, lookup-insert k j v m)

module _ {ℓ} {A : Type ℓ} ⦃e : Key A⦄ where
  unfoldable pub elem : A → List A → Bool
  elem a [] = false
  elem a (x ∷ xs) = x == a || elem a xs

  -- `s.insert(a)`.
  unfoldable pub add : A → List A → List A
  add a [] = a ∷ []
  add a (x ∷ xs) = if x == a then x ∷ xs else (if a ≺ x then a ∷ x ∷ xs else x ∷ add a xs)

  -- `s.erase(a)`.
  unfoldable pub remove : A → List A → List A
  remove a [] = []
  remove a (x ∷ xs) = if x == a then remove a xs else x ∷ remove a xs

  -- `s.insert(first, last)`.
  unfoldable pub add_all : List A → List A → List A
  add_all [] out = out
  add_all (x ∷ xs) out = add_all xs (add x out)

  pub elem-add : (a b : A) (xs : List A) → elem b (add a xs) ≡ (a == b || elem b xs)
  unfolding elem add
  elem-add a b [] = ground arith
  elem-add a b (x ∷ xs) =
      ground (arith, e.beq_iff x a, e.beq_iff x b, e.beq_iff a b, elem-add a b xs)

  pub elem-remove :
      (a b : A) (xs : List A) → elem b (remove a xs) ≡ (if a == b then false else elem b xs)
  unfolding elem remove
  elem-remove a b [] = ground arith
  elem-remove a b (x ∷ xs) =
      ground (arith, e.beq_iff x a, e.beq_iff x b, e.beq_iff a b, elem-remove a b xs)

  pub elem-append : (b : A) (xs ys : List A) → elem b (xs ++ ys) ≡ (elem b xs || elem b ys)
  unfolding elem
  elem-append b [] ys = refl
  elem-append b (x ∷ xs) ys = ground (arith, elem-append b xs ys)

  pub elem-add_all : (b : A) (xs out : List A) → elem b (add_all xs out) ≡ (elem b xs || elem b out)
  unfolding elem add_all
  elem-add_all b [] out = refl
  elem-add_all b (x ∷ xs) out = ground (arith, elem-add_all b xs (add x out), elem-add x b out)

-- The keys of a map, in order.
unfoldable pub keys {ℓ κ} : {K : Type ℓ} {V : Type κ} → Map K V → List K
keys [] = []
keys ((k, v) ∷ m) = k ∷ keys m

pub elem-keys {ℓ κ} :
    {K : Type ℓ} {V : Type κ} ⦃e : Key K⦄ (k : K) (m : Map K V)
    → elem k (keys m) ≡ is_some (lookup k m)
unfolding elem keys lookup
elem-keys k [] = refl
elem-keys k ((j, v) ∷ m) = ground (arith, elem-keys k m)

-- No key stands twice, as in every `std::map`.
abbrev pub IsMap {ℓ κ} : {K : Type ℓ} {V : Type κ} ⦃e : Key K⦄ → Map K V → Type κ
IsMap [] = Unit
IsMap ((k, v) ∷ m) = (lookup k m ≡ none) × IsMap m

some≢none {ℓ} : {A : Type ℓ} {a : A} → ¬ (some a ≡ none)
some≢none h = cc

module _ {ℓ κ} {K : Type ℓ} {V : Type κ} ⦃e : Key K⦄ where
  pub insert-IsMap :
      (k : K) (v : V) (m : Map K V) → lookup k m ≡ none → IsMap m → IsMap (insert k v m)
  unfolding lookup insert
  insert-IsMap k v [] n h = (refl, tt)
  insert-IsMap k v ((j, w) ∷ m) n h = elim (Bool-cases (j == k)) [
    | inl same ↦ absurd (some≢none (rw same at n))
    | inr other ↦
        let k≢j : (k == j) ≡ false = ground (arith, e.beq_iff j k, e.beq_iff k j) in
        let rest = insert-IsMap k v m (rw other at n) h.1 in
        elim (Bool-cases (k ≺ j)) [
          | inl before ↦ rw (other, before) (n, h)
          | inr after ↦ rw (other, after) (lookup-insert k j v m ∙ rw k≢j h.0, rest)
        ]
  ]

  pub emplace-IsMap : (k : K) (v : V) (m : Map K V) → IsMap m → IsMap (emplace k v m)
  unfolding emplace
  emplace-IsMap k v m h = elim (Option-cases (lookup k m)) [
    | inl absent ↦ rw absent (insert-IsMap k v m absent h)
    | inr (w, there) ↦ rw there h
  ]
