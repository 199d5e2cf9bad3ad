-- ===== src/Bitmaps/Features.antt =====
-- src/features/base_features.{h,cpp}: the features that a client has told, as a bitmap.
use bcm_server.Base.{
  Bool, List, [], arith, eqb, false, if◌then◌else◌, length, ltb, not, replicate, ℕ, ◌%◌, ◌&&◌, ◌*◌,
  ◌+◌, ◌/◌, ◌<◌, ◌^◌, ◌||◌, ◌∷◌, ◌≡◌, str_key, nat_key,
}
use bcm_server.Bitmaps.Bytes.{
  length-lower, length-raise, lower, raise, test, test-lower, test-raise,
}

-- The size is a 32 bit number, and so is the sum.
unfoldable pub new_features : ℕ → List ℕ
new_features size = replicate ((size + 7) % 2 ^ 32 / 8) 0

unfoldable pub has_feature : ℕ → List ℕ → Bool
has_feature f m = if ltb f (length m * 8) then test f m else false

unfoldable pub add_feature : ℕ → List ℕ → List ℕ
add_feature f m = if ltb f (length m * 8) then raise f m else m

unfoldable pub remove_feature : ℕ → List ℕ → List ℕ
remove_feature f m = if ltb f (length m * 8) then lower f m else m

-- A call that changes the features.
pub data Change : Type 0 where
  adds : ℕ → Change
  removes : ℕ → Change

unfoldable pub apply_all : List Change → List ℕ → List ℕ
apply_all [] m = m
apply_all (adds f ∷ cs) m = apply_all cs (add_feature f m)
apply_all (removes f ∷ cs) m = apply_all cs (remove_feature f m)

-- What the last change to `f` says of it, or `start` if none does.
unfoldable pub last_word : ℕ → List Change → Bool → Bool
last_word f [] start = start
last_word f (adds g ∷ cs) start = last_word f cs (eqb f g || start)
last_word f (removes g ∷ cs) start = last_word f cs (not (eqb f g) && start)

has-add_feature :
    (g f : ℕ) (m : List ℕ)
    → has_feature g (add_feature f m) ≡ ((eqb g f && ltb f (length m * 8)) || has_feature g m)
unfolding has_feature add_feature
has-add_feature g f m =
    ground (arith, length-raise f m, λ (h : f < length m * 8). test-raise f g m h)

has-remove_feature :
    (g f : ℕ) (m : List ℕ) → has_feature g (remove_feature f m) ≡ (not (eqb g f) && has_feature g m)
unfolding has_feature remove_feature
has-remove_feature g f m =
    ground (arith, length-lower f m, λ (h : f < length m * 8). test-lower f g m h)

length-add_feature : (f : ℕ) (m : List ℕ) → length (add_feature f m) ≡ length m
unfolding add_feature
length-add_feature f m = ground (arith, length-raise f m)

length-remove_feature : (f : ℕ) (m : List ℕ) → length (remove_feature f m) ≡ length m
unfolding remove_feature
length-remove_feature f m = ground (arith, length-lower f m)

has_feature-room :
    (g : ℕ) (m : List ℕ) → has_feature g m ≡ (ltb g (length m * 8) && has_feature g m)
unfolding has_feature
has_feature-room g m = ground arith

-- After any calls, a feature that the bitmap has room for is there when the last call about it added it,
-- or when no call was about it and it was there before; a feature it has no room for never is.
pub has_feature-apply_all :
    (g : ℕ) (cs : List Change) (m : List ℕ)
    → has_feature g (apply_all cs m)
      ≡ (if ltb g (length m * 8) then last_word g cs (has_feature g m) else false)
unfolding apply_all last_word
has_feature-apply_all g [] m = ground (arith, has_feature-room g m)
has_feature-apply_all g (adds f ∷ cs) m = ground (
  arith,
  has_feature-apply_all g cs (add_feature f m),
  has-add_feature g f m,
  length-add_feature f m,
)
has_feature-apply_all g (removes f ∷ cs) m = ground (
  arith,
  has_feature-apply_all g cs (remove_feature f m),
  has-remove_feature g f m,
  length-remove_feature f m,
)
