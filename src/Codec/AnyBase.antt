-- ===== src/Codec/AnyBase.antt =====
-- src/crypto/any_base.{h,cpp}: numbers of 64 bits written in a base up to 62. A base is not negative here.
use native.Mathlib.Nat.{mul-le-mul_left, mod-lt, div-add-mod}
use bcm_server.Base.{
  Bool, Bool-cases, Option, Option-cases, Str, [], ap, arith, codes, eqb, false, get_or,
  if◌then◌else◌, inl, inr, leb, ltb, none, refl, some, suc, true, zero, ℕ, ◌%◌, ◌&&◌, ◌*◌, ◌+◌, ◌-◌,
  ◌/◌, ◌<◌, ◌^◌, ◌∙◌, ◌∷◌, ◌≡◌, ◌≤◌, str_key, nat_key,
}

abbrev pub number_symbol : Str
number_symbol = codes "0123456789abcdefghijklmnopqrstuvwxyzABCDEFGHIJKLMNOPQRSTUVWXYZ"

-- `sizeof(kNumberSymbol)`.
abbrev pub max_base : ℕ
max_base = 62

-- `kNumberSymbol[i]`.
unfoldable pub symbol : ℕ → ℕ
symbol i = get_or number_symbol i 0

-- The loop of `encode`; the symbols stand in the order of `rbegin`. It is given fuel for 64 rounds.
unfoldable pub encode_loop : ℕ → ℕ → ℕ → Str → Str
encode_loop zero base num out = out
encode_loop (suc f) base num out =
    let out' = symbol (num % base) ∷ out in
    let rest = encode_loop f base (num / base) out' in if ltb 0 (num / base) then rest else out'

unfoldable pub encode : ℕ → ℕ → Option Str
unfolding encode_loop
encode num base = if ltb max_base base then none else some (encode_loop 64 base num [])

unfoldable pub symbol_value : ℕ → Option ℕ
symbol_value c =
    if leb 48 c && leb c 57
    then some (c - 48)
    else (if leb 97 c && leb c 122
        then some (c - 97 + 10)
        else (if leb 65 c && leb c 90 then some (c - 65 + 36) else none))

unfoldable pub decode_loop : ℕ → ℕ → Str → Option ℕ
decode_loop base num [] = some num
decode_loop base num (c ∷ cs) = elim (symbol_value c) [
  | none ↦ none
  | some t ↦ decode_loop base ((num * base + t) % 2 ^ 64) cs
]

unfoldable pub decode : Str → ℕ → Option ℕ
unfolding decode_loop
decode encoded base = if ltb max_base base then none else decode_loop base 0 encoded

-- The first `n` symbols stand for their places.
agree : ℕ → Bool
agree zero = true
agree (suc n) = elim (symbol_value (symbol n)) [ none ↦ false | some t ↦ eqb t n && agree n ]

agree_lem : (n r : ℕ) → agree n ≡ true → r < n → symbol_value (symbol r) ≡ some r
unfolding agree
agree_lem zero r h p = ground arith
agree_lem (suc n) r h p = elim (Option-cases (symbol_value (symbol n))) [
  | inl bad ↦ ground (arith, rw (bad, agree) at h)
  | inr (t, good) ↦ ground (arith, good, agree_lem n r, rw (good, agree) at h)
]

symbols : (r : ℕ) → r < 62 → symbol_value (symbol r) ≡ some r
unfolding agree symbol_value symbol
symbols r h = agree_lem 62 r refl h

decode_loop-symbol :
    (base q r n : ℕ) (out : Str)
    → r < 62
    → q * base + r ≡ n
    → n < 2 ^ 64
    → decode_loop base q (symbol r ∷ out) ≡ decode_loop base n out
unfolding decode_loop
decode_loop-symbol base q r n out h p w =
    rw (symbols r h, decode_loop) (ap (λ m. decode_loop base m out) (omega (arith, p, w)))

decode_loop-encode_loop :
    (f base n : ℕ) (out : Str)
    → 1 < base
    → base ≤ 62
    → n < 2 ^ 64
    → n < 2 ^ f
    → decode_loop base 0 (encode_loop f base n out) ≡ decode_loop base n out
unfolding encode_loop decode_loop
decode_loop-encode_loop zero base n out b c w h = ap (λ m. decode_loop base m out) (omega arith)
decode_loop-encode_loop (suc f) base n out b c w h =
    let r = n % base in
    let q = n / base in
    let small : r < base = mod-lt n (omega arith) in
    let whole : q * base + r ≡ n = omega (arith, div-add-mod n base) in
    let less : q < 2 ^ f = omega (arith, whole, mul-le-mul_left q b) in
    elim (Bool-cases (ltb 0 (n / base))) [
      | inl more ↦ rw more (
          decode_loop-encode_loop f base q (symbol r ∷ out) b c (omega (arith, whole)) less
          ∙ decode_loop-symbol base q r n out (omega arith) whole w)
      | inr last ↦
          let none_left : 0 ≡ q = ground (arith, last) in
          rw last (
            decode_loop-symbol base 0 r n out (omega arith)
              (ap (λ m. m * base + r) none_left ∙ whole) w)
    ]

-- In every base from 2 to 62, a number of 64 bits that is encoded is decoded to itself: 64 rounds are
-- enough.
pub decode-encode :
    (n base : ℕ)
    → 1 < base
    → base ≤ 62
    → n < 2 ^ 64
    → (s : Str) × (encode n base ≡ some s) × (decode s base ≡ some n)
unfolding encode decode
decode-encode n base b c w = (
  encode_loop 64 base n [],
  ground (arith, c),
  ground (arith, decode_loop-encode_loop 64 base n [] b c w w, c),
)
