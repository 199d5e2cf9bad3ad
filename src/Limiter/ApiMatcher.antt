-- ===== src/Limiter/ApiMatcher.antt =====
-- src/limiters/api_matcher.{h,cpp} and src/common/api.h: an API's name against a pattern whose
-- segments may be parameters (":uid"). `split` stands for `boost::split` by "/".
use bcm_server.Base.{
  Bool, Bool-cases, List, Option, Str, [], ap, arith, eqb, false, get_or, if◌then◌else◌, inl, inr,
  is_empty, leb, length, ltb, map, none, refl, some, str_eq, str_eq_iff, suc, true, ℕ, ◌&&◌, ◌++◌,
  ◌+◌, ◌||◌, ◌↔◌, ◌∙◌, ◌∷◌, ◌≡◌,
}

-- `struct Api`: the number of a `boost::beast::http::verb`, and a path.
pub record Api : Type 0 where
  pub method : ℕ
  pub name : Str

-- `to_string` of api.h; `verb_name` stands for `http::to_string`.
abbrev lower : ℕ → ℕ
lower c = if leb b'A' c && leb c b'Z' then c + 32 else c

pub to_string : (ℕ → Str) → Api → Str
to_string verb_name api =
    if is_empty api.name then [] else api.name ++ b'/' ∷ map lower (verb_name api.method)

abbrev pub is_parameter : Str → Bool
is_parameter [] = false
is_parameter (c ∷ s) = eqb c b':'

unfoldable pub match_internal : Str → Str → Bool
match_internal pattern target = is_parameter pattern || str_eq pattern target

-- The loop over two vectors of the same size; their sizes are compared first.
match_loop : List Str → List Str → Bool
match_loop [] ts = true
match_loop (p ∷ ps) [] = false
match_loop (p ∷ ps) (t ∷ ts) = match_internal p t && match_loop ps ts

abbrev same_size : List Str → List Str → Bool
same_size ps ts = eqb (length ps) (length ts)

-- The loop of `matchAndFetch`: the last index at which the pattern is the key, `none` on a mismatch.
fetch_loop : Str → List Str → List Str → ℕ → ℕ → Option ℕ
fetch_loop key [] ts i index = some index
fetch_loop key (p ∷ ps) [] i index = none
fetch_loop key (p ∷ ps) (t ∷ ts) i index =
    let rest = fetch_loop key ps ts (i + 1) (if str_eq p key then i else index) in
    if match_internal p t then rest else none

fetched : List Str → ℕ → ℕ → Str → Str
fetched ts n index value = if ltb index n then get_or ts index value else value

read_at : List Str → ℕ → Str → Option ℕ → Option Str
unfolding fetched
read_at ts n value none = none
read_at ts n value (some i) = some (fetched ts n i value)

module _ (split : Str → List Str) where
  pub match : Str → Str → Bool
  unfolding match_loop
  match pattern target =
      let ps = split pattern in
      let ts = split target in if same_size ps ts then match_loop ps ts else false

  pub match_api : Api → Api → Bool
  unfolding match
  match_api pattern target =
      if eqb pattern.method target.method then match pattern.name target.name else false

  -- `none` is the result false; `some v` is true with `value` set to `v`.
  pub match_and_fetch : Str → Str → Str → Str → Option Str
  unfolding fetch_loop read_at
  match_and_fetch pattern target key value =
      let ps = split pattern in
      let ts = split target in
      if same_size ps ts
      then read_at ts (length ps) value (fetch_loop key ps ts 0 (length ps))
      else none

  pub match_and_fetch_api : Api → Api → Str → Str → Option Str
  unfolding match_and_fetch
  match_and_fetch_api pattern target key value =
      if eqb pattern.method target.method
      then match_and_fetch pattern.name target.name key value
      else none

-- A target matches segment by segment: any text at a parameter, else the same text.
pub data Matches : List Str → List Str → Type 0 where
  nil : Matches [] []
  parameter :
      {p t : Str} {ps ts : List Str}
      → is_parameter p ≡ true
      → Matches ps ts
      → Matches (p ∷ ps) (t ∷ ts)
  same : {p t : Str} {ps ts : List Str} → p ≡ t → Matches ps ts → Matches (p ∷ ps) (t ∷ ts)

match_loop_sound :
    (ps ts : List Str) → length ps ≡ length ts → match_loop ps ts ≡ true → Matches ps ts
unfolding match_loop match_internal
match_loop_sound [] [] e h = nil
match_loop_sound [] (t ∷ ts) e h = absurd (omega arith)
match_loop_sound (p ∷ ps) [] e h = absurd (omega arith)
match_loop_sound (p ∷ ps) (t ∷ ts) e h = elim (Bool-cases (is_parameter p)) [
  | inl par ↦ parameter par (match_loop_sound ps ts (omega arith) (ground arith))
  | inr lit ↦
      same (ground (arith, str_eq_iff p t)) (match_loop_sound ps ts (omega arith) (ground arith))
]

match_loop_complete :
    (ps ts : List Str) → Matches ps ts → (length ps ≡ length ts) × (match_loop ps ts ≡ true)
unfolding match_loop match_internal
match_loop_complete _ _ nil = (refl, refl)
match_loop_complete _ _ (parameter {ps = ps} {ts = ts} par m) =
    ground (arith, match_loop_complete ps ts m)
match_loop_complete _ _ (same {p = p} {t = t} {ps = ps} {ts = ts} e m) =
    ground (arith, match_loop_complete ps ts m, str_eq_iff p t)

-- The value that a fetch reads: the text at the last segment whose pattern is the key.
abbrev pub last_at : Str → List Str → List Str → Str → Str
last_at key [] ts value = value
last_at key (p ∷ ps) [] value = value
last_at key (p ∷ ps) (t ∷ ts) value = last_at key ps ts (if str_eq p key then t else value)

-- `full` holds `ts` from the index `i` on.
fetch_loop-last :
    (key value : Str) (ps ts full : List Str) (i index n : ℕ)
    → length ps ≡ length ts
    → n ≡ i + length ps
    → ((k : ℕ) → get_or full (i + k) value ≡ get_or ts k value)
    → read_at full n value (fetch_loop key ps ts i index)
      ≡ (if match_loop ps ts then some (last_at key ps ts (fetched full n index value)) else none)
unfolding read_at fetch_loop match_loop
fetch_loop-last key value [] ts full i index n e m h = refl
fetch_loop-last key value (p ∷ ps) [] full i index n e m h = refl
fetch_loop-last key value (p ∷ ps) (t ∷ ts) full i index n e m h =
    let at : get_or full i value ≡ t = ap (λ (k : ℕ). get_or full k value) (omega arith) ∙ h 0 in
    let rest =
      fetch_loop-last key value ps ts full (i + 1) (if str_eq p key then i else index) n
        (omega arith) (omega arith)
        (λ k. ap (λ (j : ℕ). get_or full j value) (omega arith) ∙ h (suc k)) in
    ground (arith, at, rest)

module _ (split : Str → List Str) where
  -- The matcher answers true exactly when the methods are the same and the segments match one by one.
  pub match_api_iff :
      (pattern target : Api)
      → (match_api split pattern target ≡ true)
        ↔ ((pattern.method ≡ target.method) × Matches (split pattern.name) (split target.name))
  unfolding match_api
  match_api_iff pattern target = (
    λ h. (ground arith, match_loop_sound _ _ (ground arith) (ground arith)),
    λ h. ground (arith, match_loop_complete _ _ h.1),
  )

  -- A fetch succeeds exactly when the pattern matches, and then yields the text at the last segment
  -- whose pattern is the key, or the value it was given where there is none.
  match_and_fetch_lem :
      (pattern target : Api) (key value : Str)
      → match_and_fetch_api split pattern target key value ≡ (
          if match_api split pattern target
          then some (last_at key (split pattern.name) (split target.name) value)
          else none)
  unfolding match_and_fetch_api match_api
  match_and_fetch_lem pattern target key value = ground (
    arith,
    fetch_loop-last key value (split pattern.name) (split target.name) (split target.name) 0
        (length (split pattern.name)) (length (split pattern.name)),
  )
