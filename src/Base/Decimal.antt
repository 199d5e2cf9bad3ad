-- ===== src/Base/Decimal.antt =====
-- `std::to_string` of an unsigned number, and `std::stoul`.
use Prim.Native.Nat.{ℕ, zero, suc, ◌+◌, ◌-◌, ◌*◌, ◌/◌, ◌%◌, ◌<◌, ◌≤◌}
use mathlib.Core.Path.{◌≡◌, ap, ◌∙◌, sym}
use mathlib.Core.Logic.{inl, inr}
use mathlib.Core.Bool.{Bool, ◌&&◌}
use mathlib.Core.List.{[], ◌∷◌, ◌++◌}
use native.Mathlib.Omega.{arith}
use bcm_server.Base.Tests.{Bool-cases, if◌then◌else◌, leb, ltb}
use bcm_server.Base.Lists.{All}
use bcm_server.Base.Text.{Str}

-- The decimal digits of `n`, the last one last. The fuel is more than their number.
unfoldable pub digits : ℕ → ℕ → Str
digits zero n = []
digits (suc f) n =
    let rest = digits f (n / 10) ++ (48 + n % 10) ∷ [] in if ltb n 10 then (48 + n) ∷ [] else rest

unfoldable pub decimal : ℕ → Str
unfolding digits
decimal n = digits (suc n) n

abbrev pub IsDigit : ℕ → Type 0
IsDigit c = (48 ≤ c) × (c < 58)

abbrev pub is_digit : ℕ → Bool
is_digit c = leb 48 c && ltb c 58

-- The value of the digits at the front, and how many there are.
unfoldable pub value_from : ℕ → Str → ℕ
value_from v [] = v
value_from v (c ∷ s) = let rest = value_from (v * 10 + (c - 48)) s in if is_digit c then rest else v

value_from-append :
    (v c : ℕ) (s : Str)
    → All IsDigit s
    → IsDigit c
    → value_from v (s ++ c ∷ []) ≡ value_from v s * 10 + (c - 48)
unfolding value_from
value_from-append v c [] h d = ground arith
value_from-append v c (x ∷ s) h d = ground (arith, value_from-append (v * 10 + (x - 48)) c s h.1)

All-snoc : (c : ℕ) (s : Str) → All IsDigit s → IsDigit c → All IsDigit (s ++ c ∷ [])
All-snoc c [] h d = (d, tt)
All-snoc c (x ∷ s) h d = (h.0, All-snoc c s h.1 d)

digits-IsDigit : (f n : ℕ) → All IsDigit (digits f n)
unfolding digits
digits-IsDigit zero n = tt
digits-IsDigit (suc f) n = elim (Bool-cases (ltb n 10)) [
  | inl small ↦ rw small (ground arith, tt)
  | inr big ↦
      rw big (All-snoc (48 + n % 10) (digits f (n / 10)) (digits-IsDigit f (n / 10)) (omega arith))
]

value_from-digits : (f n : ℕ) → n < f → value_from 0 (digits f n) ≡ n
unfolding digits value_from
value_from-digits zero n h = absurd (omega arith)
value_from-digits (suc f) n h = elim (Bool-cases (ltb n 10)) [
  | inl small ↦ rw small (ground arith)
  | inr big ↦
      rw
        (
          big,
          value_from-append 0 (48 + n % 10) (digits f (n / 10)) (digits-IsDigit f (n / 10))
              (omega arith),
        )
        (ground (arith, value_from-digits f (n / 10)))
]

pub decimal-IsDigit : (n : ℕ) → All IsDigit (decimal n)
unfolding decimal
decimal-IsDigit n = digits-IsDigit (suc n) n

pub value_from-decimal : (n : ℕ) → value_from 0 (decimal n) ≡ n
unfolding decimal
value_from-decimal n = value_from-digits (suc n) n (omega arith)

pub decimal-injective : (m n : ℕ) → decimal m ≡ decimal n → m ≡ n
decimal-injective m n h = sym (value_from-decimal m) ∙ ap (value_from 0) h ∙ value_from-decimal n
