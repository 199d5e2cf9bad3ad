-- ===== src/Bitmaps/Bloom.antt =====
-- src/bloom/bloom_filters.{h,cpp}. `hash` is `getHashes` of the algorithm that the filter is made with.
use bcm_server.Base.{
  Bool, List, Str, [], arith, eqb, false, if◌then◌else◌, is_empty, length, ltb, not, refl,
  replicate, true, ℕ, ◌%◌, ◌&&◌, ◌*◌, ◌+◌, ◌/◌, ◌<◌, ◌^◌, ◌||◌, ◌∙◌, ◌∷◌, ◌≡◌, str_key, nat_key,
}
use bcm_server.Bitmaps.Bytes.{length-raise, lower, raise, test, test-raise}

pub record BloomFilters : Type 0 where
  pub full : Bool
  pub empty : Bool
  pub filters : List ℕ

unfoldable pub all_bytes : ℕ → List ℕ → Bool
all_bytes v [] = true
all_bytes v (b ∷ bs) = eqb b v && all_bytes v bs

unfoldable pub update_empty_full : BloomFilters → BloomFilters
update_empty_full s = record s { full = all_bytes 255 s.filters; empty = all_bytes 0 s.filters }

-- `(length + 7) / 8` of 32 bit numbers.
abbrev pub room : ℕ → ℕ
room size = (size + 7) % 2 ^ 32 / 8

unfoldable pub new_filters : ℕ → BloomFilters
new_filters size = record { full = false; empty = true; filters = replicate (room size) 0 }

-- The constructor from the contents of another filter.
unfoldable pub filters_of : Str → BloomFilters
filters_of content = update_empty_full (record { full = false; empty = true; filters = content })

unfoldable pub from_filters_content : Str → BloomFilters → Bool × BloomFilters
from_filters_content content s =
    if not (eqb (length content) (length s.filters))
    then (false, s)
    else (true, update_empty_full (record s { filters = content }))

abbrev pub get_filters_content : BloomFilters → Str
get_filters_content s = s.filters

unfoldable pub raise_each : List ℕ → List ℕ → List ℕ
raise_each [] m = m
raise_each (i ∷ is) m = raise_each is (raise (i % (length m * 8)) m)

unfoldable pub test_each : List ℕ → List ℕ → Bool
test_each [] m = true
test_each (i ∷ is) m = test (i % (length m * 8)) m && test_each is m

-- `update`, over the entries of its map.
unfoldable pub update_each : List (ℕ × Bool) → List ℕ → List ℕ
update_each [] m = m
update_each ((i, on) ∷ vs) m =
    update_each vs (if ltb i (length m * 8) then (if on then raise i m else lower i m) else m)

unfoldable pub update_filters : List (ℕ × Bool) → BloomFilters → BloomFilters
unfolding update_each
update_filters vs s = record s { filters = update_each vs s.filters }

module _ (hash : Str → List ℕ) where
  unfoldable pub insert_key : Str → BloomFilters → BloomFilters
  insert_key key s =
      if s.full || is_empty (hash key)
      then s
      else record s { filters = raise_each (hash key) s.filters; empty = false }

  unfoldable pub contains : Str → BloomFilters → Bool
  contains key s =
      if s.full
      then true
      else (if s.empty || is_empty (hash key) then false else test_each (hash key) s.filters)

  unfoldable pub insert_all : List Str → BloomFilters → BloomFilters
  insert_all [] s = s
  insert_all (k ∷ ks) s = insert_all ks (insert_key k s)

length-raise_each : (is m : List ℕ) → length (raise_each is m) ≡ length m
unfolding raise_each
length-raise_each [] m = refl
length-raise_each (i ∷ is) m =
    length-raise_each is (raise (i % (length m * 8)) m) ∙ length-raise (i % (length m * 8)) m

pub slot_lt : (i : ℕ) (m : List ℕ) → 0 < length m → i % (length m * 8) < length m * 8
slot_lt i m h = omega arith

test-raise_each :
    (is m : List ℕ) (j : ℕ) → 0 < length m → test j m ≡ true → test j (raise_each is m) ≡ true
unfolding raise_each
test-raise_each [] m j h p = p
test-raise_each (i ∷ is) m j h p =
    let m1 = raise (i % (length m * 8)) m in
    test-raise_each is m1 j (ground (arith, length-raise (i % (length m * 8)) m))
      (test-raise (i % (length m * 8)) j m (slot_lt i m h) ∙ ground (arith, p))

test_each-raise_each_keeps :
    (is js m : List ℕ)
    → 0 < length m
    → test_each js m ≡ true
    → test_each js (raise_each is m) ≡ true
unfolding test_each
test_each-raise_each_keeps is [] m h p = refl
test_each-raise_each_keeps is (j ∷ js) m h p = ground (
  arith,
  test_each-raise_each_keeps is js m h,
  test-raise_each is m (j % (length m * 8)) h,
  length-raise_each is m,
)

test_each-raise_each : (is m : List ℕ) → 0 < length m → test_each is (raise_each is m) ≡ true
unfolding test_each raise_each
test_each-raise_each [] m h = refl
test_each-raise_each (i ∷ is) m h =
    let k = i % (length m * 8) in
    let m1 = raise k m in
    let same = length-raise k m in
    let held : test k (raise_each is m1) ≡ true =
      test-raise_each is m1 k (ground (arith, same))
        (ground (arith, test-raise k k m (slot_lt i m h))) in
    ground (arith, held, same, length-raise_each is m1, test_each-raise_each is m1)

-- A filter with room whose bits for `key` are up when it is not known to be full.
Held : (Str → List ℕ) → Str → BloomFilters → Type 0
Held hash key s = (s.full ≡ false → (s.empty ≡ false) × (test_each (hash key) s.filters ≡ true))

module _ (hash : Str → List ℕ) where
  insert_key-Held :
      (key : Str) (s : BloomFilters)
      → 0 < length s.filters
      → is_empty (hash key) ≡ false
      → Held hash key (insert_key hash key s)
  unfolding insert_key Held
  insert_key-Held key s h p = ground (arith, test_each-raise_each (hash key) s.filters h)

  insert_key-Held_keeps :
      (other key : Str) (s : BloomFilters)
      → 0 < length s.filters
      → Held hash key s
      → Held hash key (insert_key hash other s)
  unfolding insert_key Held
  insert_key-Held_keeps other key s h v =
      ground (arith, v, test_each-raise_each_keeps (hash other) (hash key) s.filters h)

  pub length-insert_key :
      (key : Str) (s : BloomFilters) → length (insert_key hash key s).filters ≡ length s.filters
  unfolding insert_key
  length-insert_key key s = ground (arith, length-raise_each (hash key) s.filters)

  Held-contains :
      (key : Str) (s : BloomFilters)
      → is_empty (hash key) ≡ false
      → Held hash key s
      → contains hash key s ≡ true
  unfolding contains Held
  Held-contains key s p v = ground (arith, v)

  insert_all-Held :
      (keys : List Str) (key : Str) (s : BloomFilters)
      → 0 < length s.filters
      → Held hash key s
      → Held hash key (insert_all hash keys s)
  unfolding insert_all
  insert_all-Held [] key s h v = v
  insert_all-Held (k ∷ ks) key s h v =
      insert_all-Held ks key (insert_key hash k s) (rw (length-insert_key k s) h)
        (insert_key-Held_keeps k key s h v)

  -- A filter with room says that it contains every key that was inserted, whatever was inserted after
  -- it, if the algorithm hashes the key to one bit at least.
  pub contains-insert_all :
      (key : Str) (later : List Str) (s : BloomFilters)
      → 0 < length s.filters
      → is_empty (hash key) ≡ false
      → contains hash key (insert_all hash (key ∷ later) s) ≡ true
  unfolding insert_all
  contains-insert_all key later s h p =
      Held-contains key (insert_all hash later (insert_key hash key s)) p (
        insert_all-Held later key (insert_key hash key s) (rw (length-insert_key key s) h)
          (insert_key-Held key s h p))
