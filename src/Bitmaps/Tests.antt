-- ===== src/Bitmaps/Tests.antt =====
-- Bitmaps of a few bytes, with keys that hash to two bits.
use bcm_server.Base.{
  List, Str, [], arith, codes, false, if◌then◌else◌, length, ltb, refl, true, ℕ, ◌*◌, ◌+◌, ◌∷◌, ◌≡◌,
  str_key, nat_key,
}
use bcm_server.Bitmaps.Features.{
  Change, adds, apply_all, has_feature, has_feature-apply_all, last_word, removes,
}
use bcm_server.Bitmaps.Bloom.{
  BloomFilters, contains, contains-insert_all, from_filters_content, get_filters_content,
  insert_all, new_filters,
}
use bcm_server.Bitmaps.BloomContent.{contains-from_filters_content}

abbrev changes : List Change
changes = adds 9 ∷ adds 3 ∷ removes 9 ∷ adds 100 ∷ []

abbrev two_zeros : List ℕ
two_zeros = 0 ∷ 0 ∷ []

has_feature-apply_all_example : has_feature 9 (apply_all changes two_zeros) ≡ (
    if ltb 9 (length two_zeros * 8) then last_word 9 changes (has_feature 9 two_zeros) else false)
has_feature-apply_all_example = has_feature-apply_all 9 changes two_zeros

abbrev two_hashes : Str → List ℕ
two_hashes key = length key ∷ (length key * 7 + 300) ∷ []

abbrev some_filter : BloomFilters
some_filter = record { full = false; empty = false; filters = 1 ∷ 0 ∷ 255 ∷ [] }

abbrev later_keys : List Str
later_keys = codes "bob" ∷ codes "carol" ∷ []

contains-insert_all_example :
    contains two_hashes
      (codes "alice")
      (insert_all two_hashes (codes "alice" ∷ later_keys) some_filter)
    ≡ true
contains-insert_all_example =
    contains-insert_all two_hashes (codes "alice") later_keys some_filter (omega arith) refl

contains-from_filters_content_example :
    let s = insert_all two_hashes later_keys (new_filters 20) in
    let (taken, t) = from_filters_content (get_filters_content s) some_filter in
    (taken ≡ true) × (contains two_hashes (codes "bob") t ≡ contains two_hashes (codes "bob") s)
contains-from_filters_content_example =
    contains-from_filters_content two_hashes later_keys (codes "bob") 20 some_filter (omega arith)
      (omega arith) refl refl
