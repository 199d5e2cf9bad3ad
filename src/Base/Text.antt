-- ===== src/Base/Text.antt =====
-- `std::string` as a list of bytes.
use Prim.Native.Nat.{ℕ, ◌<◌}
use Prim.Native.Char.{code}
use Prim.Native.String.{String}
use mathlib.Core.Path.{◌≡◌, refl, subst}
use mathlib.Core.Logic.{◌↔◌}
use mathlib.Core.Bool.{Bool, true, false, ◌&&◌}
use mathlib.Core.List.{List, [], ◌∷◌}
use native.Mathlib.Omega.{arith}
use bcm_server.Base.Tests.{eqb, ltb, if◌then◌else◌}
use bcm_server.Base.Order.{Key}

abbrev pub Str : Type 0
Str = List ℕ

-- The bytes of an ASCII literal.
abbrev pub codes : String → Str
codes String.[] = []
codes (String.◌∷◌ c s) = code c ∷ codes s

abbrev pub str_eq : Str → Str → Bool
str_eq [] [] = true
str_eq [] (y ∷ ys) = false
str_eq (x ∷ xs) [] = false
str_eq (x ∷ xs) (y ∷ ys) = eqb x y && str_eq xs ys

-- `operator<` of `std::string`: by bytes, a prefix first.
abbrev pub str_less : Str → Str → Bool
str_less s [] = false
str_less [] (y ∷ ys) = true
str_less (x ∷ xs) (y ∷ ys) =
    let rest = str_less xs ys in if ltb x y then true else (if ltb y x then false else rest)

str_eq→eq : (s t : Str) → str_eq s t ≡ true → s ≡ t
str_eq→eq [] [] h = refl
str_eq→eq [] (y ∷ ys) h = cc
str_eq→eq (x ∷ xs) [] h = cc
str_eq→eq (x ∷ xs) (y ∷ ys) h = ground (arith, str_eq→eq xs ys)

str_eq_refl : (s : Str) → str_eq s s ≡ true
str_eq_refl [] = refl
str_eq_refl (x ∷ xs) = ground (arith, str_eq_refl xs)

pub str_eq_iff : (s t : Str) → (str_eq s t ≡ true) ↔ (s ≡ t)
str_eq_iff s t = (str_eq→eq s t, λ p. subst (λ u. str_eq s u ≡ true) p (str_eq_refl s))

instance abbrev pub str_key : Key Str
str_key = record { beq = str_eq; less = str_less; beq_iff = str_eq_iff }

-- A byte string: every element is an unsigned char.
abbrev pub IsBytes : Str → Type 0
IsBytes [] = Unit
IsBytes (x ∷ xs) = (x < 256) × IsBytes xs

abbrev pub is_empty {ℓ} : {A : Type ℓ} → List A → Bool
is_empty [] = true
is_empty (x ∷ xs) = false
