-- ===== src/Bitmaps/Bytes.antt =====
-- `std::vector<uint8_t>` as a bitmap: bit `i` is bit `i & 7` of the byte `i >> 3`.
use bcm_server.Base.{
  Bool, Bool-cases, List, arith, eqb, get_or, get_or-set_ne, get_or-set_self, if◌then◌else◌, inl,
  inr, length, length-set, not, set, ℕ, ◌%◌, ◌&&◌, ◌*◌, ◌/◌, ◌<◌, ◌||◌, ◌≡◌, str_key, nat_key,
}
use bcm_server.Base.Bits.{bit, bit-clear_bit, bit-set_bit, clear_bit, set_bit}

unfoldable pub test : ℕ → List ℕ → Bool
test i m = bit (i % 8) (get_or m (i / 8) 0)

unfoldable pub raise : ℕ → List ℕ → List ℕ
raise i m = set m (i / 8) (set_bit (i % 8) (get_or m (i / 8) 0))

unfoldable pub lower : ℕ → List ℕ → List ℕ
lower i m = set m (i / 8) (clear_bit (i % 8) (get_or m (i / 8) 0))

pub length-raise : (i : ℕ) (m : List ℕ) → length (raise i m) ≡ length m
unfolding raise
length-raise i m = length-set m (i / 8) (set_bit (i % 8) (get_or m (i / 8) 0))

pub length-lower : (i : ℕ) (m : List ℕ) → length (lower i m) ≡ length m
unfolding lower
length-lower i m = length-set m (i / 8) (clear_bit (i % 8) (get_or m (i / 8) 0))

get_or-set :
    (xs : List ℕ) (i j v : ℕ)
    → i < length xs
    → get_or (set xs i v) j 0 ≡ (if eqb i j then v else get_or xs j 0)
get_or-set xs i j v h = elim (Bool-cases (eqb i j)) [
  | inl same ↦ ground (arith, get_or-set_self xs i v 0 h)
  | inr other ↦ rw other (get_or-set_ne xs i j v 0 (ground arith))
]

pub test-raise :
    (i j : ℕ) (m : List ℕ) → i < length m * 8 → test j (raise i m) ≡ (eqb j i || test j m)
unfolding test raise
test-raise i j m h = ground (
  arith,
  get_or-set m (i / 8) (j / 8) (set_bit (i % 8) (get_or m (i / 8) 0)) (omega arith),
  bit-set_bit (j % 8) (i % 8) (get_or m (i / 8) 0),
)

pub test-lower :
    (i j : ℕ) (m : List ℕ) → i < length m * 8 → test j (lower i m) ≡ (not (eqb j i) && test j m)
unfolding test lower
test-lower i j m h = ground (
  arith,
  get_or-set m (i / 8) (j / 8) (clear_bit (i % 8) (get_or m (i / 8) 0)) (omega arith),
  bit-clear_bit (j % 8) (i % 8) (get_or m (i / 8) 0),
)
