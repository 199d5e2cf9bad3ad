-- ===== src/Utils/RingMoves.antt =====
-- src/utils/consistent_hash.h: which groups move when a server is added or removed.
use bcm_server.Base.{
  Bool-cases, Map, Option-cases, Str, [], arith, eqb, erase, false, inl, inr, insert, leb, length,
  none, not, refl, some, str_eq, str_eq_iff, suc, true, zero, ℕ, ◌&&◌, ◌+◌, ◌∙◌, ◌∷◌, ◌≡◌, ◌≤◌, ◌⊎◌,
  str_key, nat_key,
}
use bcm_server.Utils.Fnv.{fnv_hash, fnv_hash_u64}
use bcm_server.Utils.Ring.{
  Ring, add_buffer, add_replicas, add_server, first, get_server, get_server_by_key, lower_bound,
  remove_buffer, remove_replicas, remove_server, server_of,
}

-- A point on the circle takes over what it is asked for, or leaves it.
lower_bound-insert :
    (h k : ℕ) (s : Str) (m : Map ℕ Str)
    → (lower_bound h (insert k s m) ≡ some s) ⊎ (lower_bound h (insert k s m) ≡ lower_bound h m)
unfolding lower_bound insert
lower_bound-insert h k s [] = ground arith
lower_bound-insert h k s ((i, x) ∷ rest) = ground (arith, lower_bound-insert h k s rest)

first-insert :
    (k : ℕ) (s : Str) (m : Map ℕ Str)
    → (first (insert k s m) ≡ some s) ⊎ (first (insert k s m) ≡ first m)
unfolding first insert
first-insert k s [] = ground arith
first-insert k s ((i, x) ∷ rest) = ground arith

server_of-insert :
    (h k : ℕ) (s : Str) (m : Map ℕ Str)
    → (server_of h (insert k s m) ≡ s) ⊎ (server_of h (insert k s m) ≡ server_of h m)
unfolding server_of
server_of-insert h k s m = elim (lower_bound-insert h k s m) [
  | inl e ↦ inl (rw (e, server_of) refl)
  | inr e ↦ elim (Option-cases (lower_bound h m)) [
    | inr (y, f) ↦ inr (rw (e, f, server_of) refl)
    | inl f ↦ elim (first-insert k s m) [
      | inl g ↦ inl (rw (e, f, g, server_of) refl)
      | inr g ↦ inr (rw (e, f, g, server_of) refl)
    ]
  ]
]

pub server_of-add_replicas :
    (h n i : ℕ) (s : Str) (m : Map ℕ Str)
    → (server_of h (add_replicas n i s m) ≡ s)
      ⊎ (server_of h (add_replicas n i s m) ≡ server_of h m)
unfolding add_replicas
server_of-add_replicas h zero i s m = inr refl
server_of-add_replicas h (suc n) i s m =
    let k = fnv_hash (add_buffer s i) in
    elim (server_of-add_replicas h n (i + 1) s (insert k s m)) [
      | inl e ↦ inl e
      | inr e ↦ elim (server_of-insert h k s m) [ inl f ↦ inl (e ∙ f) | inr f ↦ inr (e ∙ f) ]
    ]

-- When a server is added, with any name and any number of replicas, a group and a key keep the server
-- that they had, or go to the new one: nothing moves between the old servers. In a ring that was empty
-- what they had is the empty text.
pub get_server-add_server :
    (r : Ring) (server : Str) (group_id : ℕ) (key : Str)
    → ((get_server (add_server r server) group_id ≡ server)
        ⊎ (get_server (add_server r server) group_id ≡ get_server r group_id))
      × ((get_server_by_key (add_server r server) key ≡ server)
          ⊎ (get_server_by_key (add_server r server) key ≡ get_server_by_key r key))
unfolding get_server get_server_by_key add_server
get_server-add_server r server group_id key = (
  server_of-add_replicas (fnv_hash_u64 group_id) r.number_of_replicas 0 server r.server_circle,
  server_of-add_replicas (fnv_hash key) r.number_of_replicas 0 server r.server_circle,
)

-- A point of the circle belongs to no other server.
abbrev pub IsOnly : ℕ → Str → Map ℕ Str → Type 0
IsOnly k s [] = Unit
IsOnly k s ((i, x) ∷ rest) = ((eqb i k && not (str_eq x s)) ≡ false) × IsOnly k s rest

-- Nor does any of the points of a server that is to be removed.
abbrev pub AllOnly : ℕ → ℕ → Str → Map ℕ Str → Type 0
AllOnly zero i s m = Unit
AllOnly (suc n) i s m = IsOnly (fnv_hash (remove_buffer s i)) s m × AllOnly n (i + 1) s m

erase-IsOnly : (k j : ℕ) (s : Str) (m : Map ℕ Str) → IsOnly k s m → IsOnly k s (erase j m)
unfolding erase
erase-IsOnly k j s [] h = tt
erase-IsOnly k j s ((i, x) ∷ rest) h = elim (Bool-cases (eqb i j)) [
  | inl e ↦ rw e (erase-IsOnly k j s rest h.1)
  | inr e ↦ rw e (h.0, erase-IsOnly k j s rest h.1)
]

erase-AllOnly : (n i j : ℕ) (s : Str) (m : Map ℕ Str) → AllOnly n i s m → AllOnly n i s (erase j m)
erase-AllOnly zero i j s m h = tt
erase-AllOnly (suc n) i j s m h =
    (erase-IsOnly (fnv_hash (remove_buffer s i)) j s m h.0, erase-AllOnly n (i + 1) j s m h.1)

lower_bound-erase-none :
    (h k : ℕ) (m : Map ℕ Str) → lower_bound h m ≡ none → lower_bound h (erase k m) ≡ none
unfolding lower_bound erase
lower_bound-erase-none h k [] e = refl
lower_bound-erase-none h k ((i, x) ∷ rest) e = ground (arith, lower_bound-erase-none h k rest)

lower_bound-erase :
    (h k : ℕ) (s y : Str) (m : Map ℕ Str)
    → IsOnly k s m
    → str_eq y s ≡ false
    → lower_bound h m ≡ some y
    → lower_bound h (erase k m) ≡ some y
unfolding lower_bound erase
lower_bound-erase h k s y [] o n e = cc
lower_bound-erase h k s y ((i, x) ∷ rest) o n e =
    ground (arith, lower_bound-erase h k s y rest o.1 n, o.0, str_eq_iff x s, str_eq_iff y s)

first-erase :
    (k : ℕ) (s y : Str) (m : Map ℕ Str)
    → IsOnly k s m
    → str_eq y s ≡ false
    → first m ≡ some y
    → first (erase k m) ≡ some y
unfolding first erase
first-erase k s y [] o n e = cc
first-erase k s y ((i, x) ∷ rest) o n e = ground (arith, o.0, str_eq_iff x s, str_eq_iff y s)

first-erase-none : (k : ℕ) (m : Map ℕ Str) → first m ≡ none → first (erase k m) ≡ none
unfolding first erase
first-erase-none k [] e = refl
first-erase-none k ((i, x) ∷ rest) e = cc

server_of-erase :
    (h k : ℕ) (s : Str) (m : Map ℕ Str)
    → IsOnly k s m
    → str_eq (server_of h m) s ≡ false
    → server_of h (erase k m) ≡ server_of h m
unfolding server_of
server_of-erase h k s m o n = elim (Option-cases (lower_bound h m)) [
  | inr (y, e) ↦
      let n' : str_eq y s ≡ false = rw (e, server_of) at n in
      rw (e, lower_bound-erase h k s y m o n' e, server_of) refl
  | inl e ↦ elim (Option-cases (first m)) [
    | inl f ↦ rw (e, f, lower_bound-erase-none h k m e, first-erase-none k m f, server_of) refl
    | inr (y, f) ↦
        let n' : str_eq y s ≡ false = rw (e, f, server_of) at n in
        rw (e, f, lower_bound-erase-none h k m e, first-erase k s y m o n' f, server_of) refl
  ]
]

server_of-remove_replicas :
    (h n i : ℕ) (s : Str) (m : Map ℕ Str)
    → AllOnly n i s m
    → str_eq (server_of h m) s ≡ false
    → server_of h (remove_replicas n i s m) ≡ server_of h m
unfolding remove_replicas
server_of-remove_replicas h zero i s m o n = refl
server_of-remove_replicas h (suc c) i s m o n =
    let k = fnv_hash (remove_buffer s i) in
    let one = server_of-erase h k s m o.0 n in
    server_of-remove_replicas h c (i + 1) s (erase k m) (erase-AllOnly c (i + 1) k s m o.1)
      (rw one n)
    ∙ one

fits : (server : Str) → length server ≤ 46 → leb (length server) 46 ≡ true
fits server h = ground arith

-- When a server with a name of at most 46 bytes is removed, and no other server has one of its points
-- on the circle, a group that had another server keeps it.
pub get_server-remove_server :
    (r : Ring) (server : Str) (group_id : ℕ)
    → length server ≤ 46
    → AllOnly r.number_of_replicas 0 server r.server_circle
    → str_eq (get_server r group_id) server ≡ false
    → (r' : Ring) × (remove_server r server ≡ some r')
      × (get_server r' group_id ≡ get_server r group_id)
unfolding get_server remove_server
get_server-remove_server r server group_id short only other = (
  record r { server_circle = remove_replicas r.number_of_replicas 0 server r.server_circle },
  rw (fits server short) refl,
  server_of-remove_replicas (fnv_hash_u64 group_id) r.number_of_replicas 0 server r.server_circle
      only other,
)
