-- ===== src/Bitmaps/BloomContent.antt =====
-- What a filter that is made from the contents of another one answers.
use native.Mathlib.Nat.{mod-eq_of_lt}
use bcm_server.Base.{
  List, Str, [], ap, arith, eqb, false, get_or, is_empty, keys, length, refl, replicate, suc, true,
  zero, ℕ, ◌%◌, ◌*◌, ◌+◌, ◌/◌, ◌<◌, ◌^◌, ◌∙◌, ◌∷◌, ◌≡◌, str_key, nat_key,
}
use bcm_server.Base.Bits.{bit}
use bcm_server.Bitmaps.Bytes.{test}
use bcm_server.Bitmaps.Bloom.{
  BloomFilters, all_bytes, contains, filters_of, from_filters_content, get_filters_content,
  insert_all, insert_key, length-insert_key, new_filters, room, slot_lt, test_each,
  update_empty_full,
}

bit-zero : (k : ℕ) → bit k 0 ≡ false
unfolding bit
bit-zero zero = refl
bit-zero (suc k) = bit-zero k

bit-ones : (k : ℕ) → k < 8 → bit k 255 ≡ true
unfolding bit
bit-ones zero h = refl
bit-ones (suc zero) h = refl
bit-ones (suc (suc zero)) h = refl
bit-ones (suc (suc (suc zero))) h = refl
bit-ones (suc (suc (suc (suc zero)))) h = refl
bit-ones (suc (suc (suc (suc (suc zero))))) h = refl
bit-ones (suc (suc (suc (suc (suc (suc zero)))))) h = refl
bit-ones (suc (suc (suc (suc (suc (suc (suc zero))))))) h = refl
bit-ones (suc (suc (suc (suc (suc (suc (suc (suc k)))))))) h = ground arith

get_or-all_bytes :
    (v : ℕ) (m : List ℕ) (j : ℕ) → all_bytes v m ≡ true → j < length m → get_or m j 0 ≡ v
unfolding all_bytes
get_or-all_bytes v [] j h p = omega arith
get_or-all_bytes v (b ∷ bs) zero h p = ground arith
get_or-all_bytes v (b ∷ bs) (suc j) h p = get_or-all_bytes v bs j (ground arith) (omega arith)

test-zeros : (m : List ℕ) (j : ℕ) → all_bytes 0 m ≡ true → j < length m * 8 → test j m ≡ false
unfolding test
test-zeros m j h p = rw (get_or-all_bytes 0 m (j / 8) h (omega arith)) (bit-zero (j % 8))

test-ones : (m : List ℕ) (j : ℕ) → all_bytes 255 m ≡ true → j < length m * 8 → test j m ≡ true
unfolding test
test-ones m j h p =
    rw (get_or-all_bytes 255 m (j / 8) h (omega arith)) (bit-ones (j % 8) (omega arith))

test_each-ones : (is m : List ℕ) → 0 < length m → all_bytes 255 m ≡ true → test_each is m ≡ true
unfolding test_each
test_each-ones [] m h p = refl
test_each-ones (i ∷ is) m h p =
    ground (arith, test_each-ones is m h p, test-ones m (i % (length m * 8)) p (slot_lt i m h))

test_each-zeros :
    (is m : List ℕ)
    → 0 < length m
    → all_bytes 0 m ≡ true
    → is_empty is ≡ false
    → test_each is m ≡ false
unfolding test_each
test_each-zeros [] m h p q = cc
test_each-zeros (i ∷ is) m h p q =
    ground (arith, test-zeros m (i % (length m * 8)) p (slot_lt i m h))

-- The two flags, when they are up, tell the truth of the bytes.
unfoldable pub Honest : BloomFilters → Type 0
Honest s =
    (s.full ≡ true → all_bytes 255 s.filters ≡ true)
    × (s.empty ≡ true → all_bytes 0 s.filters ≡ true)

room_small : (size : ℕ) → size + 7 < 2 ^ 32 → room size ≡ (size + 7) / 8
room_small size h = ap (λ n. n / 8) (mod-eq_of_lt h)

module _ (hash : Str → List ℕ) where
  insert_key-Honest : (key : Str) (s : BloomFilters) → Honest s → Honest (insert_key hash key s)
  unfolding insert_key Honest
  insert_key-Honest key s v = ground (arith, v.0, v.1)

  pub insert_all-Honest :
      (keys : List Str) (s : BloomFilters) → Honest s → Honest (insert_all hash keys s)
  unfolding insert_all
  insert_all-Honest [] s v = v
  insert_all-Honest (k ∷ ks) s v =
      insert_all-Honest ks (insert_key hash k s) (insert_key-Honest k s v)

  contains-filters_of :
      (key : Str) (s : BloomFilters)
      → 0 < length s.filters
      → is_empty (hash key) ≡ false
      → Honest s
      → contains hash key (filters_of s.filters) ≡ contains hash key s
  unfolding contains filters_of update_empty_full Honest
  contains-filters_of key s h p v = ground (
    arith,
    v.0,
    v.1,
    test_each-ones (hash key) s.filters h,
    λ (q : all_bytes 0 s.filters ≡ true). test_each-zeros (hash key) s.filters h q p,
  )

  length-insert_all :
      (keys : List Str) (s : BloomFilters)
      → length (insert_all hash keys s).filters ≡ length s.filters
  unfolding insert_all
  length-insert_all [] s = refl
  length-insert_all (k ∷ ks) s =
      length-insert_all ks (insert_key hash k s) ∙ length-insert_key hash k s

  all_bytes-replicate : (n : ℕ) → all_bytes 0 (replicate n 0) ≡ true
  unfolding all_bytes
  all_bytes-replicate zero = refl
  all_bytes-replicate (suc n) = all_bytes-replicate n

  length-replicate : (n : ℕ) → length (replicate {A = ℕ} n 0) ≡ n
  length-replicate zero = refl
  length-replicate (suc n) = ap suc (length-replicate n)

  new_filters-Honest : (size : ℕ) → Honest (new_filters size)
  unfolding Honest new_filters
  new_filters-Honest size = (λ h. ground arith, λ h. all_bytes-replicate (room size))

  length-new_filters : (size : ℕ) → length (new_filters size).filters ≡ room size
  unfolding new_filters
  length-new_filters size = length-replicate (room size)

  -- A filter that is made with a size of one bit or more, under 2^32 - 7, and is filled with keys, and a filter of as
  -- many bytes that takes over its contents say the same of every key that hashes to a bit, and the
  -- contents are taken.
  pub contains-from_filters_content :
      (keys : List Str) (key : Str) (size : ℕ) (t : BloomFilters)
      → 0 < size
      → size + 7 < 2 ^ 32
      → is_empty (hash key) ≡ false
      → length t.filters ≡ (size + 7) / 8
      → let s = insert_all hash keys (new_filters size) in
        let (taken, t') = from_filters_content (get_filters_content s) t in
        (taken ≡ true) × (contains hash key t' ≡ contains hash key s)
  unfolding from_filters_content filters_of update_empty_full
  contains-from_filters_content keys key size t h small p q =
      let s = insert_all hash keys (new_filters size) in
      let same = length-insert_all keys (new_filters size) ∙ length-new_filters size in
      let honest = insert_all-Honest keys (new_filters size) (new_filters-Honest size) in
      let bytes = room_small size small in
      let fits : eqb (length s.filters) (length t.filters) ≡ true =
        ground (arith, same, q, bytes) in
      rw fits (refl, contains-filters_of key s (omega (arith, same, bytes)) p honest)
