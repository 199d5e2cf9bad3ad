-- ===== src/Codec/Url.antt =====
-- src/crypto/url_encoder.{h,cpp}: texts with percent signs in place of the characters that are not plain.
use mathlib.Core.List.{append_assoc, append-nil}
use bcm_server.Base.{
  Bool, Bool-cases, IsBytes, Option-cases, Str, [], ap, arith, codes, eqb, false, if◌then◌else◌,
  inl, inr, leb, none, refl, sym, true, ℕ, ◌&&◌, ◌++◌, ◌<◌, ◌||◌, ◌∙◌, ◌∷◌, ◌≡◌, ◌⊎◌, str_key,
  nat_key,
}
use bcm_server.Codec.Hex
use bcm_server.Codec.Hex.{
  Decoded, decode, decode-encode_hex, decode_loop, encode, hex_digits, hex_value, raw, throws,
}

unfoldable pub unreserved : ℕ → Bool
unreserved c =
    (leb b'a' c && leb c b'z')
    || (leb b'A' c && leb c b'Z')
    || (leb b'0' c && leb c b'9')
    || eqb c b'-'
    || eqb c b'_'
    || eqb c b'.'
    || eqb c b'~'

unfoldable pub encode_char : ℕ → Str
encode_char c = if unreserved c then c ∷ [] else Hex.encode (c ∷ []) false (codes "%")

unfoldable pub encode_url : Str → Str
encode_url [] = []
encode_url (c ∷ cs) = encode_char c ++ encode_url cs

-- What is written to the stream before the rest; an exception of the rest goes through.
unfoldable pub written : Str → Decoded → Decoded
written s (Decoded.raw t) = Decoded.raw (s ++ t)
written s (Decoded.throws m) = Decoded.throws m

-- The string that `HexEncoder::decode` throws is no `std::exception`: the `catch` lets it through.
unfoldable pub after_hex : Decoded → Decoded → Decoded
after_hex (Decoded.raw s) rest = written s rest
after_hex (Decoded.throws m) rest = Decoded.throws m

unfoldable pub decode_url : Str → Decoded
decode_url [] = Decoded.raw []
decode_url (c ∷ []) = written (c ∷ []) (Decoded.raw [])
decode_url (c ∷ a ∷ []) = written (c ∷ []) (written (a ∷ []) (Decoded.raw []))
decode_url (c ∷ a ∷ b ∷ cs) =
    let escaped = after_hex (Hex.decode (a ∷ b ∷ []) true) (decode_url cs) in
    let plain = written (c ∷ []) (decode_url (a ∷ b ∷ cs)) in if eqb c b'%' then escaped else plain

pub decode_plain :
    (c : ℕ) (t : Str) → eqb c b'%' ≡ false → decode_url (c ∷ t) ≡ written (c ∷ []) (decode_url t)
unfolding decode_url
decode_plain c [] h = refl
decode_plain c (a ∷ []) h = refl
decode_plain c (a ∷ b ∷ t) h = rw h refl

decode_escape :
    (c : ℕ) (t : Str)
    → c < 256
    → decode_url (b'%' ∷ hex_digits false (c ∷ []) ++ t) ≡ written (c ∷ []) (decode_url t)
unfolding decode_url hex_digits Hex.encode after_hex
decode_escape c t h = rw (decode-encode_hex (c ∷ []) false true (h, tt)) refl

decode_char :
    (c : ℕ) (t : Str) → c < 256 → decode_url (encode_char c ++ t) ≡ written (c ∷ []) (decode_url t)
unfolding encode_char unreserved
decode_char c t h = elim (Bool-cases (unreserved c)) [
  | inl plain ↦ rw plain (decode_plain c t (ground (arith, plain)))
  | inr not_plain ↦ rw not_plain (unfold Hex.encode in decode_escape c t h)
]

written_twice : (s t : Str) (d : Decoded) → written s (written t d) ≡ written (s ++ t) d
unfolding written
written_twice s t (Decoded.raw r) = ap Decoded.raw (sym (append_assoc s t r))
written_twice s t (Decoded.throws m) = refl

written_nothing : (d : Decoded) → written [] d ≡ d
unfolding written
written_nothing (Decoded.raw s) = refl
written_nothing (Decoded.throws m) = refl

decode_url-append :
    (s t : Str) → IsBytes s → decode_url (encode_url s ++ t) ≡ written s (decode_url t)
unfolding encode_url
decode_url-append [] t h = sym (written_nothing (decode_url t))
decode_url-append (c ∷ s) t h =
    ap decode_url (append_assoc (encode_char c) (encode_url s) t)
    ∙ decode_char c (encode_url s ++ t) h.0
    ∙ ap (written (c ∷ [])) (decode_url-append s t h.1)
    ∙ written_twice (c ∷ []) s (decode_url t)

-- Bytes that are encoded for a URL are decoded to themselves.
pub decode_url-encode_url : (s : Str) → IsBytes s → decode_url (encode_url s) ≡ Decoded.raw s
unfolding decode_url written
decode_url-encode_url s h =
    ap decode_url (sym (append-nil (encode_url s)))
    ∙ decode_url-append s [] h
    ∙ ap Decoded.raw (append-nil s)

decode_bad :
    (a b : ℕ)
    → (hex_value a ≡ none) ⊎ (hex_value b ≡ none)
    → Hex.decode (a ∷ b ∷ []) true ≡ Decoded.throws (a ∷ b ∷ codes " is not a hex string")
unfolding Hex.decode Hex.decode_loop
decode_bad a b (inl p) = rw (p, Hex.decode, Hex.decode_loop) refl
decode_bad a b (inr q) = elim (Option-cases (hex_value a)) [
  | inl p ↦ rw (p, Hex.decode, Hex.decode_loop) refl
  | inr (x, p) ↦ rw (p, Hex.decode, Hex.decode_loop) (rw q refl)
]

-- After any text that was encoded, a percent sign before two characters of which one is no hex digit
-- makes the decoder throw the string of `HexEncoder`, whatever follows.
pub decode_url_throws :
    (s rest : Str) (a b : ℕ)
    → IsBytes s
    → (hex_value a ≡ none) ⊎ (hex_value b ≡ none)
    → decode_url (encode_url s ++ b'%' ∷ a ∷ b ∷ rest)
      ≡ Decoded.throws (a ∷ b ∷ codes " is not a hex string")
unfolding decode_url after_hex written
decode_url_throws s rest a b h k =
    decode_url-append s (b'%' ∷ a ∷ b ∷ rest) h ∙ rw (decode_bad a b k) refl
