-- ===== src/Codec/Hex.antt =====
-- src/crypto/hex_encoder.{h,cpp}: bytes written as two hexadecimal digits each.
use bcm_server.Base.{
  Bool, IsBytes, Option, Option-cases, Str, [], ap, arith, codes, eqb, false, get_or, if◌then◌else◌,
  inl, inr, leb, none, not, refl, some, suc, true, zero, ℕ, ◌%◌, ◌&&◌, ◌*◌, ◌++◌, ◌+◌, ◌-◌, ◌/◌,
  ◌<◌, ◌∙◌, ◌∷◌, ◌≡◌, str_key, nat_key,
}

abbrev pub hexmap_lower : Str
hexmap_lower = codes "0123456789abcdef"

abbrev pub hexmap_upper : Str
hexmap_upper = codes "0123456789ABCDEF"

unfoldable pub hex_digit : Bool → ℕ → ℕ
hex_digit lower_case i = get_or (if lower_case then hexmap_lower else hexmap_upper) i 0

unfoldable pub hex_digits : Bool → Str → Str
hex_digits lower_case [] = []
hex_digits lower_case (b ∷ bs) =
    hex_digit lower_case (b / 16 % 16) ∷ hex_digit lower_case (b % 16) ∷ hex_digits lower_case bs

unfoldable pub encode : Str → Bool → Str → Str
unfolding hex_digits
encode raw lower_case prefix = prefix ++ hex_digits lower_case raw

unfoldable pub hex_value : ℕ → Option ℕ
hex_value c =
    if leb 48 c && leb c 57
    then some (c - 48)
    else (if leb 97 c && leb c 102
        then some (c - 97 + 10)
        else (if leb 65 c && leb c 70 then some (c - 65 + 10) else none))

-- The loop: `odd` is `i & 1`, and `raw_byte` what has been read of a byte. `none` is a character that is
-- not a digit.
unfoldable pub decode_loop : Bool → ℕ → Str → Option Str
decode_loop odd raw_byte [] = some []
decode_loop odd raw_byte (c ∷ cs) = elim (hex_value c) [
  | none ↦ none
  | some part ↦
      let byte = raw_byte * 16 % 256 + part in
      let after = decode_loop (not odd) (if odd then 0 else byte) cs in
      if odd then elim after [ none ↦ none | some r ↦ some (byte ∷ r) ] else after
]

-- What `decode` throws is a `std::string`.
pub data Decoded : Type 0 where
  raw : Str → Decoded
  throws : Str → Decoded

unfoldable pub decode : Str → Bool → Decoded
unfolding decode_loop
decode hexstr exception = elim (decode_loop false 0 hexstr) [
  | none ↦ if exception then throws (hexstr ++ codes " is not a hex string") else raw []
  | some bytes ↦ raw bytes
]

agree : Bool → ℕ → Bool
agree lower_case zero = true
agree lower_case (suc n) = elim (hex_value (hex_digit lower_case n)) [
  | none ↦ false
  | some t ↦ eqb t n && agree lower_case n
]

agree_lem :
    (lower_case : Bool) (n i : ℕ)
    → agree lower_case n ≡ true
    → i < n
    → hex_value (hex_digit lower_case i) ≡ some i
unfolding agree
agree_lem lower_case zero i h p = ground arith
agree_lem lower_case (suc n) i h p = elim (Option-cases (hex_value (hex_digit lower_case n))) [
  | inl bad ↦ ground (arith, rw (bad, agree) at h)
  | inr (t, good) ↦ ground (arith, good, agree_lem lower_case n i, rw (good, agree) at h)
]

hex_value-hex_digit :
    (lower_case : Bool) (i : ℕ) → i < 16 → hex_value (hex_digit lower_case i) ≡ some i
unfolding agree hex_value hex_digit
hex_value-hex_digit true i h = agree_lem true 16 i refl h
hex_value-hex_digit false i h = agree_lem false 16 i refl h

with_byte : ℕ → Option Str → Option Str
with_byte b none = none
with_byte b (some r) = some (b ∷ r)

decode_loop-two :
    (a c x y : ℕ) (cs : Str)
    → hex_value a ≡ some x
    → hex_value c ≡ some y
    → decode_loop false 0 (a ∷ c ∷ cs) ≡ with_byte (x * 16 % 256 + y) (decode_loop false 0 cs)
unfolding decode_loop with_byte
decode_loop-two a c x y cs p q = elim (Option-cases (decode_loop false 0 cs)) [
  | inl bad ↦ rw (p, decode_loop) (rw (q, bad) refl)
  | inr (r, good) ↦ rw (p, decode_loop) (rw (q, good) (ap (λ n. some (n ∷ r)) (omega arith)))
]

with_byte_digits :
    (lower_case : Bool) (b : ℕ) (bs : Str)
    → b < 256
    → decode_loop false 0 (hex_digits lower_case bs) ≡ some bs
    → with_byte (b / 16 % 16 * 16 % 256 + b % 16) (decode_loop false 0 (hex_digits lower_case bs))
      ≡ some (b ∷ bs)
unfolding with_byte
with_byte_digits lower_case b bs h ih = rw ih (ap (λ x. some (x ∷ bs)) (omega (arith, h)))

decode_loop-hex_digits :
    (lower_case : Bool) (bytes : Str)
    → IsBytes bytes
    → decode_loop false 0 (hex_digits lower_case bytes) ≡ some bytes
unfolding decode_loop hex_digits
decode_loop-hex_digits lower_case [] h = refl
decode_loop-hex_digits lower_case (b ∷ bs) h =
    decode_loop-two (hex_digit lower_case (b / 16 % 16)) (hex_digit lower_case (b % 16))
      (b / 16 % 16) (b % 16) (hex_digits lower_case bs)
      (hex_value-hex_digit lower_case (b / 16 % 16) (omega arith))
      (hex_value-hex_digit lower_case (b % 16) (omega arith))
    ∙ with_byte_digits lower_case b bs h.0 (decode_loop-hex_digits lower_case bs h.1)

-- Bytes that are encoded without a prefix, in either case, are decoded to themselves.
pub decode-encode_hex :
    (bytes : Str) (lower_case exception : Bool)
    → IsBytes bytes
    → decode (encode bytes lower_case []) exception ≡ Decoded.raw bytes
unfolding encode decode
decode-encode_hex bytes lower_case exception h =
    rw (decode_loop-hex_digits lower_case bytes h, decode, encode) refl
