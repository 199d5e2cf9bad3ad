-- ===== src/Utils/Fnv.antt =====
-- src/utils/consistent_hash.h: FnvHashFunction, on 32 bit words.
use bcm_server.Base.{Str, [], bit_xor, suc, zero, ℕ, ◌%◌, ◌*◌, ◌+◌, ◌/◌, ◌^◌, ◌∷◌, str_key, nat_key}

unfoldable pub fnv_step : ℕ → ℕ → ℕ
fnv_step h byte = bit_xor h byte * 16777619 % 2 ^ 32

unfoldable pub fnv_loop : ℕ → Str → ℕ
unfolding fnv_step
fnv_loop h [] = h
fnv_loop h (byte ∷ bytes) = fnv_loop (fnv_step h byte) bytes

-- `h += h << k` and `h ^= h >> k`.
unfoldable pub add_shift : ℕ → ℕ → ℕ
add_shift k h = (h + h * 2 ^ k) % 2 ^ 32

unfoldable pub xor_shift : ℕ → ℕ → ℕ
xor_shift k h = bit_xor h (h / 2 ^ k)

unfoldable pub fnv_hash : Str → ℕ
unfolding fnv_loop add_shift xor_shift
fnv_hash bytes =
    add_shift 5
      (xor_shift 17 (add_shift 3 (xor_shift 7 (add_shift 13 (fnv_loop 0x811C9DC5 bytes)))))

-- The bytes of a number, the lowest first, as they lie in memory.
unfoldable pub little_endian : ℕ → ℕ → Str
little_endian zero n = []
little_endian (suc k) n = n % 256 ∷ little_endian k (n / 256)

unfoldable pub fnv_hash_u64 : ℕ → ℕ
unfolding fnv_hash little_endian
fnv_hash_u64 n = fnv_hash (little_endian 8 n)
