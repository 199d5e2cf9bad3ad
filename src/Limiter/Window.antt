-- ===== src/Limiter/Window.antt =====
-- Histories of requests of a user within one window.
use bcm_server.Base.{
  ==_refl, Bool-cases, List, Str, [], ap, arith, if◌then◌else◌, inl, inr, leb, lookup,
  lookup-emplace, lookup-insert, min, or_else, refl, some, str_eq, str_eq_iff, true, ℕ, ◌+◌, ◌-◌,
  ◌==◌, ◌∙◌, ◌∷◌, ◌≡◌, ◌≢◌, str_key, nat_key,
}
use bcm_server.Base.Int.{ltb_ℤ, pos, sub_ℕ, ℤ, ◌≤ℤ◌}
use bcm_server.Limiter.{LimitLevel, LimitRule, Status, charge, good, limited, new_status}
use bcm_server.Limiter.UserQps.{UserQpsLimiter, acquire_access, is_limited}

-- How many requests of `id` a history holds, and how many of them are let through.
unfoldable pub asked : Str → List (Str × ℕ) → ℕ
asked id [] = 0
asked id ((u, now) ∷ rs) = (if u == id then 1 else 0) + asked id rs

abbrev pub as_number : LimitLevel → ℕ
as_number good = 1
as_number limited = 0

unfoldable pub admitted : Str → UserQpsLimiter → List (Str × ℕ) → ℕ
admitted id l [] = 0
admitted id l ((u, now) ∷ rs) =
    let (l', level) = acquire_access l u now in
    (if u == id then as_number level else 0) + admitted id l' rs

-- Every request of `id` comes while the window that begins at `start` is open.
abbrev pub Within : Str → ℕ → ℤ → List (Str × ℕ) → Type 0
Within id start period [] = Unit {0}
Within id start period ((u, now) ∷ rs) =
    (u ≡ id → ltb_ℤ (sub_ℕ now start) period ≡ true) × Within id start period rs

acquire-lookup :
    (l : UserQpsLimiter) (u id : Str) (now : ℕ) (s : Status)
    → lookup id l.status ≡ some s
    → lookup id (acquire_access l u now).0.status
      ≡ (if u == id then some (charge l.rule s now).0 else some s)
unfolding acquire_access
acquire-lookup l u id now s h =
    simp (lookup-insert, lookup-emplace, h) (ground (arith, str_eq_iff u id, str_eq_iff u u))

acquire_self-level :
    (l : UserQpsLimiter) (id : Str) (now : ℕ) (s : Status)
    → lookup id l.status ≡ some s
    → (acquire_access l id now).1 ≡ (charge l.rule s now).1
unfolding acquire_access
acquire_self-level l id now s h = simp (lookup-emplace, h, ==_refl)

acquire-level :
    (l : UserQpsLimiter) (u id : Str) (now : ℕ) (s : Status)
    → lookup id l.status ≡ some s
    → str_eq u id ≡ true
    → (acquire_access l u now).1 ≡ (charge l.rule s now).1
acquire-level l u id now s h same = rw ((str_eq_iff u id).0 same) (acquire_self-level l id now s h)

pub acquire-rule :
    (l : UserQpsLimiter) (id : Str) (now : ℕ) → (acquire_access l id now).0.rule ≡ l.rule
unfolding acquire_access
acquire-rule l id now = refl

charge_open :
    (r : LimitRule) (s : Status) (now c : ℕ)
    → s.start_time ≢ 0
    → ltb_ℤ (sub_ℕ now s.start_time) r.period ≡ true
    → r.count ≡ pos c
    → ((charge r s now).0 ≡ record s { counter = s.counter + 1 })
      × (as_number (charge r s now).1 ≡ (if leb (s.counter + 1) c then 1 else 0))
unfolding charge
charge_open r s now c h w e = ground arith

-- A user whose window is open, with `s` requests counted in it and a count that is not negative, sends
-- requests while it stays open, and other users send any. Then exactly as many requests of the user are
-- let through as it asks for, or as the count still leaves, whichever is less.
pub admitted-window :
    (rs : List (Str × ℕ)) (l : UserQpsLimiter) (id : Str) (s : Status) (c : ℕ)
    → lookup id l.status ≡ some s
    → s.start_time ≢ 0
    → l.rule.count ≡ pos c
    → Within id s.start_time l.rule.period rs
    → admitted id l rs ≡ min (asked id rs) (c - s.counter)
unfolding admitted asked
admitted-window [] l id s c h z e w = omega arith
admitted-window ((u, now) ∷ rs) l id s c h z e w = elim (Bool-cases (str_eq u id)) [
  | inl same ↦
      let opened = charge_open l.rule s now c z (w.0 ((str_eq_iff u id).0 same)) e in
      let moved : lookup id (acquire_access l u now).0.status
          ≡ some (record s { counter = s.counter + 1 }) =
        acquire-lookup l u id now s h ∙ rw (same, opened.0) in
      let rest =
        admitted-window rs (acquire_access l u now).0 id (record s { counter = s.counter + 1 }) c
          moved z (ap (λ (r : LimitRule). r.count) (acquire-rule l u now) ∙ e)
          (rw (acquire-rule l u now) w.1) in
      rw (same, acquire-level l u id now s h same) (ground (arith, rest, opened.1))
  | inr other ↦
      let rest =
        admitted-window rs (acquire_access l u now).0 id s c
          (acquire-lookup l u id now s h ∙ rw other) z
          (ap (λ (r : LimitRule). r.count) (acquire-rule l u now) ∙ e)
          (rw (acquire-rule l u now) w.1) in
      rw other (omega (arith, rest))
]

abbrev status_of : UserQpsLimiter → Str → Status
status_of l id = or_else (lookup id l.status) new_status

acquire_fresh :
    (l : UserQpsLimiter) (id : Str) (now : ℕ)
    → (lookup id (acquire_access l id now).0.status ≡ some (charge l.rule (status_of l id) now).0)
      × ((acquire_access l id now).1 ≡ (charge l.rule (status_of l id) now).1)
unfolding acquire_access
acquire_fresh l id now =
    (simp (lookup-insert, lookup-emplace, ==_refl), simp (lookup-emplace, ==_refl))

-- When the count is at least one, `is_limited` answers at the time of a request what the request was
-- answered.
is_limited-acquire :
    (l : UserQpsLimiter) (id : Str) (now : ℕ)
    → pos 1 ≤ℤ l.rule.count
    → is_limited (acquire_access l id now).0 id now ≡ (acquire_access l id now).1
unfolding is_limited charge
is_limited-acquire l id now h = ground (arith, acquire_fresh l id now, acquire-rule l id now)
