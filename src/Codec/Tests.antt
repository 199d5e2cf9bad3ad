-- ===== src/Codec/Tests.antt =====
-- Numbers and bytes that are encoded and decoded.
use bcm_server.Base.{Str, arith, codes, inl, refl, some, true, [], ◌++◌, ◌∷◌, ◌≡◌}
use bcm_server.Codec.AnyBase
use bcm_server.Codec.AnyBase.{decode-encode}
use bcm_server.Codec.Hex
use bcm_server.Codec.Hex.{Decoded, decode-encode_hex, hex_value}
use bcm_server.Codec.Url.{decode_url, decode_url-encode_url, decode_url_throws, encode_url}

decode-encode_example :
    (s : Str) × (AnyBase.encode 3843 62 ≡ some s) × (AnyBase.decode s 62 ≡ some 3843)
decode-encode_example = decode-encode 3843 62 (omega arith) (omega arith) (omega arith)

abbrev two_bytes : Str
two_bytes = 255 ∷ 16 ∷ []

decode_url-encode_url_example : decode_url (encode_url two_bytes) ≡ Decoded.raw two_bytes
decode_url-encode_url_example = decode_url-encode_url two_bytes (omega arith, (omega arith, tt))

decode_url_throws_example :
    decode_url (encode_url two_bytes ++ b'%' ∷ b'z' ∷ b'0' ∷ codes "abc")
    ≡ Decoded.throws (b'z' ∷ b'0' ∷ codes " is not a hex string")
unfolding hex_value
decode_url_throws_example =
    decode_url_throws two_bytes (codes "abc") b'z' b'0' (omega arith, (omega arith, tt)) (inl refl)

decode-encode_hex_example : Hex.decode (Hex.encode two_bytes true []) true ≡ Decoded.raw two_bytes
decode-encode_hex_example = decode-encode_hex two_bytes true true (omega arith, (omega arith, tt))
