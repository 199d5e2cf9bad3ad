-- ===== src/Limiter/Verdict.antt =====
-- Histories of requests at the executor.
use bcm_server.Base.Int.{pos}
use bcm_server.Base.{
  Bool, Bool-cases, List, Option, Str, [], arith, if◌then◌else◌, inl, inr, is_empty, lookup, none,
  refl, some, subst, true, ℕ, ◌++◌, ◌+◌, ◌-◌, ◌∷◌, ◌≡◌, ◌≢◌, ◌≤◌, str_key,
}
use bcm_server.Limiter.{Status, good}
use bcm_server.Limiter.UserQps.{acquire_access}
use bcm_server.Limiter.Window.{Within, admitted, admitted-window, asked}
use bcm_server.Limiter.ApiMatcher.{Api}
use bcm_server.Limiter.Executor.{
  CheckArgs, Limiters, Request, args_of, check_api, check_uid, is_ignored, pre_process,
  run_checkers, validate,
}

module _ (split : Str → List Str) (verb_name : ℕ → Str) where
  -- The user and the time that a request is charged to, if it is charged at all.
  unfoldable pub charged : List Api → Option Request → ℕ → List (Str × ℕ)
  charged ignored none now = []
  charged ignored (some r) now =
      let u = (pre_process split verb_name (args_of split verb_name r)).uid in
      if is_ignored split verb_name ignored (args_of split verb_name r).api
      then []
      else (if is_empty u then [] else (u, now) ∷ [])

  unfoldable pub charges : List Api → List (Option Request × ℕ × ℕ) → List (Str × ℕ)
  charges ignored [] = []
  charges ignored ((r, now, later) ∷ rs) = charged ignored r now ++ charges ignored rs

  -- How many requests that are charged to `id` get through.
  unfoldable pub let_through : Str → Limiters → List (Option Request × ℕ × ℕ) → ℕ
  let_through id l [] = 0
  let_through id l ((r, now, later) ∷ rs) =
      let (l', verdict) = validate split verb_name l r now later in
      (if verdict then asked id (charged l.ignored r now) else 0) + let_through id l' rs

  -- One request: the users' part of the state, and what a verdict true means for it.
  abbrev StepOf : Limiters → Limiters × Bool → List (Str × ℕ) → Type 0
  StepOf l (l', verdict) [] = (l'.ignored ≡ l.ignored) × (l'.users ≡ l.users)
  StepOf l (l', verdict) ((u, now) ∷ cs) =
      (l'.ignored ≡ l.ignored)
      × (cs ≡ [])
      × (l'.users ≡ (acquire_access l.users u now).0)
      × (verdict ≡ true → (acquire_access l.users u now).1 ≡ good)

  check_api-users :
      (l : Limiters) (a : CheckArgs) (now : ℕ)
      → ((check_api split verb_name l a now).0.users ≡ l.users)
        × ((check_api split verb_name l a now).0.ignored ≡ l.ignored)
  unfolding check_api
  check_api-users l a now = ground arith

  run_checkers-StepOf :
      (l : Limiters) (a : CheckArgs) (now later : ℕ)
      → let u = (pre_process split verb_name a).uid in
        StepOf l
          (run_checkers split verb_name l a now later)
          (if is_empty u then [] else (u, now) ∷ [])
  unfolding run_checkers check_uid
  run_checkers-StepOf l a now later =
      let a' = pre_process split verb_name a in
      let l' = record l { users = (acquire_access l.users a'.uid now).0 } in
      let free = check_api-users l a' later in
      let paid = check_api-users l' a' later in
      elim (Bool-cases (is_empty (pre_process split verb_name a).uid)) [
        | inl nobody ↦ rw nobody (ground (arith, free), ground (arith, free))
        | inr user ↦
            rw user (ground (arith, paid), refl, ground (arith, paid), λ h. ground (arith, paid))
      ]

  validate-StepOf :
      (l : Limiters) (r : Option Request) (now later : ℕ)
      → StepOf l (validate split verb_name l r now later) (charged l.ignored r now)
  unfolding validate charged
  validate-StepOf l none now later = (refl, refl)
  validate-StepOf l (some r) now later =
      elim (Bool-cases (is_ignored split verb_name l.ignored (args_of split verb_name r).api)) [
        | inl yea ↦ rw yea (refl, refl)
        | inr nay ↦ rw nay (run_checkers-StepOf l (args_of split verb_name r) now later)
      ]

  StepOf-ignored :
      (l : Limiters) (out : Limiters × Bool) (cs : List (Str × ℕ))
      → StepOf l out cs
      → out.0.ignored ≡ l.ignored
  StepOf-ignored l out [] h = h.0
  StepOf-ignored l out (c ∷ cs) h = h.0

  one_step :
      (id : Str) (l : Limiters) (out : Limiters × Bool) (cs more : List (Str × ℕ)) (rest : ℕ)
      → StepOf l out cs
      → rest ≤ admitted id out.0.users more
      → (if out.1 then asked id cs else 0) + rest ≤ admitted id l.users (cs ++ more)
  unfolding asked admitted
  one_step id l (l', verdict) [] more rest h le =
      let known : rest ≤ admitted id l.users more = rw (← h.1) le in ground (arith, known)
  one_step id l (l', verdict) ((u, now) ∷ cs) more rest h le =
      let known : rest ≤ admitted id (acquire_access l.users u now).0 more = rw (← h.2) le in
      rw h.1 (ground (arith, known, h.3))

  -- The executor lets through at most what the user limiter admits.
  let_through-le-admitted :
      (id : Str) (rs : List (Option Request × ℕ × ℕ)) (l : Limiters)
      → let_through id l rs ≤ admitted id l.users (charges l.ignored rs)
  unfolding let_through charges
  let_through-le-admitted id [] l = omega arith
  let_through-le-admitted id ((r, now, later) ∷ rs) l =
      let out = validate split verb_name l r now later in
      let step = validate-StepOf l r now later in
      one_step id l out (charged l.ignored r now) (charges l.ignored rs) (let_through id out.0 rs)
        step
        (subst (λ ig. let_through id out.0 rs ≤ admitted id out.0.users (charges ig rs))
          (StepOf-ignored l out (charged l.ignored r now) step)
          (let_through-le-admitted id rs out.0))

-- A user's window is open with `s` requests counted in it, its count is not negative, and every request
-- that is charged to the user comes while the window stays open; any other requests come in between. Then
-- no more of the user's requests get through the executor than the count still leaves.
pub let_through-le :
    (split : Str → List Str) (verb_name : ℕ → Str) (rs : List (Option Request × ℕ × ℕ))
    (l : Limiters) (id : Str) (s : Status) (c : ℕ)
    → lookup id l.users.status ≡ some s
    → s.start_time ≢ 0
    → l.users.rule.count ≡ pos c
    → Within id s.start_time l.users.rule.period (charges split verb_name l.ignored rs)
    → let_through split verb_name id l rs ≤ c - s.counter
let_through-le split verb_name rs l id s c h z e w = omega (
  arith,
  let_through-le-admitted split verb_name id rs l,
  admitted-window (charges split verb_name l.ignored rs) l.users id s c h z e w,
)
