-- ===== src/Codec/UrlFree.antt =====
-- src/crypto/url_encoder.cpp: the bytes that an encoded text has not.
use bcm_server.Base.{
  Bool-cases, Str, [], arith, eqb, eqb_iff, false, get_or, inl, inr, is_empty, refl, subst, suc,
  true, zero, ℕ, ◌%◌, ◌++◌, ◌/◌, ◌||◌, ◌∷◌, ◌≡◌, str_key, nat_key,
}
use bcm_server.Dispatch.Address.{Free, address_key}
use bcm_server.Codec.Hex
use bcm_server.Codec.Hex.{encode, hex_digit, hex_digits, hexmap_upper}
use bcm_server.Codec.Url.{encode_char, encode_url, unreserved}

module _ (r : ℕ) where
  get_or-Free : (l : Str) (i : ℕ) → Free r l → eqb 0 r ≡ false → eqb (get_or l i 0) r ≡ false
  get_or-Free [] i h z = z
  get_or-Free (c ∷ l) zero h z = h.0
  get_or-Free (c ∷ l) (suc i) h z = get_or-Free l i h.1 z

  append-Free : (s t : Str) → Free r s → Free r t → Free r (s ++ t)
  append-Free [] t h k = k
  append-Free (x ∷ s) t h k = (h.0, append-Free s t h.1 k)

-- A byte that is reserved, and neither a percent sign nor a digit.
module _ (r : ℕ) (digits : Free r Hex.hexmap_upper) (reserved : unreserved r ≡ false)
    (other : (eqb 0 r || eqb b'%' r) ≡ false) where
  plain_other : (c : ℕ) → unreserved c ≡ true → eqb c r ≡ false
  plain_other c u = elim (Bool-cases (eqb c r)) [
    | inr n ↦ n
    | inl e ↦ ground (arith, reserved, subst (λ x. unreserved x ≡ true) ((eqb_iff c r).0 e) u)
  ]

  encode_char-Free : (c : ℕ) → Free r (encode_char c)
  unfolding encode_char Hex.encode hex_digits hex_digit
  encode_char-Free c = elim (Bool-cases (unreserved c)) [
    | inl u ↦ rw u (plain_other c u, tt)
    | inr u ↦ rw u (
      ground arith,
      (
        get_or-Free r Hex.hexmap_upper (c / 16 % 16) digits (ground arith),
        (get_or-Free r Hex.hexmap_upper (c % 16) digits (ground arith), tt),
      ),
    )
  ]

  pub encode_url-Free : (s : Str) → Free r (encode_url s)
  unfolding encode_url
  encode_url-Free [] = tt
  encode_url-Free (c ∷ s) =
      append-Free r (encode_char c) (encode_url s) (encode_char-Free c) (encode_url-Free s)

encode_char_nonempty : (c : ℕ) (s : Str) → is_empty (encode_char c ++ s) ≡ false
unfolding encode_char Hex.encode
encode_char_nonempty c s = elim (Bool-cases (unreserved c)) [
  | inl u ↦ rw u refl
  | inr u ↦ rw u refl
]

pub encode_url_nonempty : (s : Str) → is_empty s ≡ false → is_empty (encode_url s) ≡ false
unfolding encode_url
encode_url_nonempty [] h = cc
encode_url_nonempty (c ∷ s) h = encode_char_nonempty c (encode_url s)
