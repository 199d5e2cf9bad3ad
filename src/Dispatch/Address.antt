-- ===== src/Dispatch/Address.antt =====
-- src/dispatcher/dispatch_address.{h,cpp}: a user and a device, written "uid:device".
use bcm_server.Base.{
  All, Bool, Bool-cases, Key, List, Option, Str, [], ap, arith, codes, eqb, false, if◌then◌else◌,
  inl, inr, leb, ltb, none, refl, some, str_eq, str_eq_iff, str_less, subst, suc, sym, true, zero,
  ℕ, ◌%◌, ◌&&◌, ◌++◌, ◌-◌, ◌/◌, ◌<◌, ◌^◌, ◌||◌, ◌↔◌, ◌∙◌, ◌∷◌, ◌≡◌, str_key, nat_key,
}
use bcm_server.Base.Decimal.{
  IsDigit, decimal, decimal-IsDigit, decimal-injective, digits, is_digit, value_from,
  value_from-decimal,
}

pub record DispatchAddress : Type 0 where
  pub uid : Str
  pub deviceid : ℕ

unfoldable pub get_serialized : DispatchAddress → Str
get_serialized a = a.uid ++ b':' ∷ decimal a.deviceid

unfoldable pub get_serialized_for_online_notify : DispatchAddress → Str
unfolding get_serialized
get_serialized_for_online_notify a = codes "on:" ++ get_serialized a

-- `std::stoul`: white space, a sign, digits; `none` is an exception. A minus negates modulo 2^64.
abbrev is_space : ℕ → Bool
is_space c = eqb c 32 || (leb 9 c && leb c 13)

skip_space : Str → Str
skip_space [] = []
skip_space (c ∷ s) = let rest = skip_space s in if is_space c then rest else c ∷ s

starts_with_digit : Str → Bool
starts_with_digit [] = false
starts_with_digit (c ∷ s) = is_digit c

magnitude : Bool → Str → Option ℕ
unfolding starts_with_digit
magnitude negative s =
    let v = value_from 0 s in
    if starts_with_digit s && ltb v (2 ^ 64)
    then some (if negative then (2 ^ 64 - v) % 2 ^ 64 else v)
    else none

signed : Str → Option ℕ
unfolding magnitude
signed [] = none
signed (c ∷ s) =
    if eqb c b'-'
    then magnitude true s
    else (if eqb c b'+' then magnitude false s else magnitude false (c ∷ s))

unfoldable pub stoul : Str → Option ℕ
unfolding skip_space signed
stoul s = signed (skip_space s)

with_device : Str → Option ℕ → Option DispatchAddress
with_device uid none = none
with_device uid (some n) = some (record { uid = uid; deviceid = n % 2 ^ 32 })

-- The parts that `boost::split` finds; a missing second part is refused.
from_parts : List Str → Option DispatchAddress
unfolding with_device
from_parts [] = none
from_parts (uid ∷ []) = none
from_parts (uid ∷ device ∷ more) = with_device uid (stoul device)

unfoldable pub deserialize : (Str → List Str) → Str → Option DispatchAddress
unfolding from_parts
deserialize split s = from_parts (split s)

-- No byte of `s` is the separator.
abbrev pub Free : ℕ → Str → Type 0
Free c [] = Unit {0}
Free c (x ∷ s) = (eqb x c ≡ false) × Free c s

-- What `boost::split` by ":" does with one separator between two texts that have none.
abbrev pub SplitsAtColon : (Str → List Str) → Type 0
SplitsAtColon split = (u d : Str) → Free b':' u → Free b':' d → split (u ++ b':' ∷ d) ≡ u ∷ d ∷ []

digits-Free : (s : Str) → All IsDigit s → Free b':' s
digits-Free [] h = tt
digits-Free (c ∷ s) h = (ground arith, digits-Free s h.1)

starts-append : (s t : Str) → starts_with_digit s ≡ true → starts_with_digit (s ++ t) ≡ true
unfolding starts_with_digit
starts-append [] t h = cc
starts-append (c ∷ s) t h = h

digits-starts : (f n : ℕ) → n < f → starts_with_digit (digits f n) ≡ true
unfolding digits
digits-starts zero n h = absurd (omega arith)
digits-starts (suc f) n h = elim (Bool-cases (ltb n 10)) [
  | inl small ↦ rw small (unfold starts_with_digit in ground arith)
  | inr big ↦ rw big (starts-append _ _ (digits-starts f (n / 10) (ground arith)))
]

stoul_of_digit : (s : Str) → starts_with_digit s ≡ true → stoul s ≡ magnitude false s
unfolding stoul starts_with_digit
stoul_of_digit [] h = cc
stoul_of_digit (c ∷ s) h = ground arith

magnitude_lem :
    (n : ℕ)
    → n < 2 ^ 64
    → (s : Str) → starts_with_digit s ≡ true
    → value_from 0 s ≡ n
    → magnitude false s ≡ some n
unfolding magnitude
magnitude_lem n h s d e = ground arith

stoul-decimal : (n : ℕ) → n < 2 ^ 64 → stoul (decimal n) ≡ some n
unfolding decimal
stoul-decimal n h =
    stoul_of_digit (decimal n) (digits-starts (suc n) n (omega arith))
    ∙ magnitude_lem n h (decimal n) (digits-starts (suc n) n (omega arith)) (value_from-decimal n)

-- An address comes back from its text, if its user has no ":" and its device fits a uint32_t, and `split`
-- splits a text with one ":" at it.
pub deserialize-get_serialized :
    (split : Str → List Str) (a : DispatchAddress)
    → SplitsAtColon split
    → Free b':' a.uid
    → a.deviceid < 2 ^ 32
    → deserialize split (get_serialized a) ≡ some a
unfolding deserialize get_serialized
deserialize-get_serialized split a sp u d =
    rw (sp a.uid (decimal a.deviceid) u (digits-Free _ (decimal-IsDigit a.deviceid)))
      (rw (stoul-decimal a.deviceid (omega arith)) (ground arith))

abbrev tail_of : Str → Str
tail_of [] = []
tail_of (x ∷ s) = s

Free-holds : (c : ℕ) (s t : Str) → Free c (s ++ c ∷ t) → ⊥
Free-holds c [] t h = ground (arith, h.0)
Free-holds c (x ∷ s) t h = Free-holds c s t h.1

-- Two texts with one separator each, and none behind it, are equal in both parts.
split_unique :
    (c : ℕ) (xs ys as' bs : Str)
    → Free c as'
    → Free c bs
    → xs ++ c ∷ as' ≡ ys ++ c ∷ bs
    → (xs ≡ ys) × (as' ≡ bs)
split_unique c [] [] as' bs f g h = (refl, ground arith)
split_unique c [] (y ∷ ys) as' bs f g h =
    absurd (Free-holds c ys bs (subst (Free c) (ap tail_of h) f))
split_unique c (x ∷ xs) [] as' bs f g h =
    absurd (Free-holds c xs as' (subst (Free c) (sym (ap tail_of h)) g))
split_unique c (x ∷ xs) (y ∷ ys) as' bs f g h =
    let rest = split_unique c xs ys as' bs f g (ap tail_of h) in (ground (arith, rest.0), rest.1)

get_serialized-injective : (a b : DispatchAddress) → get_serialized a ≡ get_serialized b → a ≡ b
unfolding get_serialized
get_serialized-injective a b h =
    let parts =
      split_unique b':' a.uid b.uid (decimal a.deviceid) (decimal b.deviceid)
        (digits-Free _ (decimal-IsDigit a.deviceid)) (digits-Free _ (decimal-IsDigit b.deviceid))
        h in
    ground (arith, parts.0, decimal-injective a.deviceid b.deviceid parts.1)

-- `std::set<DispatchAddress>` orders by the texts.
pub address_beq_iff :
    (a b : DispatchAddress) → (str_eq (get_serialized a) (get_serialized b) ≡ true) ↔ (a ≡ b)
address_beq_iff a b = (
  λ h. get_serialized-injective a b ((str_eq_iff (get_serialized a) (get_serialized b)).0 h),
  λ h. (str_eq_iff (get_serialized a) (get_serialized b)).1 (ap get_serialized h),
)

instance abbrev pub address_key : Key DispatchAddress
address_key = record {
  beq = λ a b. str_eq (get_serialized a) (get_serialized b);
  less = λ a b. str_less (get_serialized a) (get_serialized b);
  beq_iff = address_beq_iff;
}
