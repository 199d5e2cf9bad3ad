-- ===== src/Limiter/Counted.antt =====
-- src/limiters/distributed_limiter.cpp: requests of a user that redis counts.
use bcm_server.Limiter.Slots.{over_count-succ_ℤ}
use bcm_server.Base.{
  ==_refl, Bool, Bool-cases, List, Option-cases, Str, [], arith, false, if◌then◌else◌, inl, inr,
  length, lookup, lookup-emplace, lookup-insert, min, none, refl, some, subst, suc, sym, true, ℕ,
  ◌+◌, ◌-◌, ◌<◌, ◌^◌, ◌∷◌, ◌≡◌, str_key, nat_key,
}
use bcm_server.Base.Int.{int64_of, ltb_ℤ, pos, succ_ℤ}
use bcm_server.Limiter.{LimitRule, good, limited}
use bcm_server.Limiter.Window.{as_number}
use bcm_server.Limiter.Distributed.{
  DistributedLimiter, Item, Reply, acquire_slot, incr_switch, known_over, over_count, slot,
}

-- The answer to the request that makes the counter `k + 1`.
abbrev pub counts : ℕ → Reply
counts k = record { ret = pos 1; new_value = k + 1 }

-- A request whose answer is known locally, so that redis is not asked.
abbrev pub is_known : DistributedLimiter → Str → ℕ → Bool
is_known l uid now = elim (lookup uid l.status) [
  | none ↦ false
  | some item ↦ known_over l.rule item now
]

-- How many of the requests of a user at these times get through, where the counter of the slot is `k`
-- before them, and redis adds one for each that it is asked about.
unfoldable pub let_in : (ℕ → Str) → DistributedLimiter → Str → ℕ → List ℕ → ℕ
let_in decimal l uid k [] = 0
let_in decimal l uid k (now ∷ times) =
    let r = acquire_slot decimal l uid now (counts k) in
    as_number r.1 + let_in decimal r.0 uid (if is_known l uid now then k else k + 1) times

-- All times in one slot of a rule.
abbrev pub AllIn : LimitRule → ℕ → List ℕ → Type 0
AllIn rule s [] = Unit
AllIn rule s (now ∷ times) = (slot rule now ≡ s) × AllIn rule s times

-- The local copy and the answer after a request that is known to be over, and after another one.
module _ (decimal : ℕ → Str) (l : DistributedLimiter) (uid : Str) (now k : ℕ) where
  after_known :
      (item : Item)
      → lookup uid l.status ≡ some item
      → known_over l.rule item now ≡ true
      → let r = acquire_slot decimal l uid now (counts k) in
        (lookup uid r.0.status ≡ some (record item { count = succ_ℤ item.count }))
        × (r.1 ≡ limited)
        × (r.0.rule ≡ l.rule)
  unfolding acquire_slot
  after_known item h o = (
    simp (lookup-emplace, lookup-insert, ==_refl, h, o) refl,
    simp (lookup-emplace, ==_refl, h, o),
    simp (lookup-emplace, ==_refl, h, o) refl,
  )

  after_unknown :
      is_known l uid now ≡ false
      → let r = acquire_slot decimal l uid now (counts k) in
        let count = int64_of (k + 1) in
        (lookup uid r.0.status ≡ some (record { time_slot = slot l.rule now; count = count }))
        × (r.1 ≡ (if over_count l.rule count then limited else good))
        × (r.0.rule ≡ l.rule)
  unfolding acquire_slot incr_switch
  after_unknown n = elim (Option-cases (lookup uid l.status)) [
    | inl h ↦ (
      simp (lookup-emplace, lookup-insert, ==_refl, h) refl,
      simp (lookup-emplace, h) refl,
      simp (lookup-emplace, h) refl,
    )
    | inr (item, h) ↦
        let o : known_over l.rule item now ≡ false = rw (h, is_known) at n in
        (
          simp (lookup-emplace, lookup-insert, ==_refl, h, o) refl,
          simp (lookup-emplace, ==_refl, h, o) refl,
          simp (lookup-emplace, ==_refl, h, o) refl,
        )
  ]

-- A count that is not over is not known to be.
not_known :
    (l : DistributedLimiter) (uid : Str) (now : ℕ) (item : Item)
    → lookup uid l.status ≡ some item
    → over_count l.rule item.count ≡ false
    → is_known l uid now ≡ false
not_known l uid now item h o = rw (h, is_known) (ground (arith, o))

-- Equal numbers within 64 bits.
small_int64 : (n : ℕ) → n < 2 ^ 63 → int64_of n ≡ pos n
small_int64 n h = ground arith

-- Times in a slot of one rule are so of an equal rule.
AllIn-rule : (a b : LimitRule) (s : ℕ) (times : List ℕ) → a ≡ b → AllIn b s times → AllIn a s times
AllIn-rule a b s times e h = subst (λ r. AllIn r s times) (sym e) h

over_min : (c k n : ℕ) → ltb_ℤ (pos c) (pos (k + 1)) ≡ true → 0 + 0 ≡ min (suc n) (c - k)
over_min c k n h = ground arith

under_min :
    (c k n : ℕ)
    → ltb_ℤ (pos c) (pos (k + 1)) ≡ false
    → 1 + min n (c - (k + 1)) ≡ min (suc n) (c - k)
under_min c k n h = ground arith

module _ (decimal : ℕ → Str) (uid : Str) (s : ℕ) where
  -- Once the local copy is over, no request gets through.
  let_in-over :
      (l : DistributedLimiter) (k : ℕ) (times : List ℕ) (item : Item)
      → lookup uid l.status ≡ some item
      → item.time_slot ≡ s
      → over_count l.rule item.count ≡ true
      → AllIn l.rule s times
      → let_in decimal l uid k times ≡ 0
  unfolding let_in
  let_in-over l k [] item e f o h = refl
  let_in-over l k (now ∷ times) item e f o h =
      let known : known_over l.rule item now ≡ true = ground (arith, f, h.0, o) in
      let r = acquire_slot decimal l uid now (counts k) in
      let a = after_known decimal l uid now k item e known in
      let more : over_count r.0.rule (succ_ℤ item.count) ≡ true =
        rw a.2 (over_count-succ_ℤ l.rule item.count o) in
      let rest =
        let_in-over r.0 (if is_known l uid now then k else k + 1) times
          (record item { count = succ_ℤ item.count }) a.0 f more
          (AllIn-rule r.0.rule l.rule s times a.2 h.1) in
      rw (a.1, rest) refl

  -- With a counter under the limit, or a first request.
  let_in-fresh :
      (l : DistributedLimiter) (c k : ℕ) (times : List ℕ)
      → l.rule.count ≡ pos c
      → k + length times < 2 ^ 63
      → ((now : ℕ) → slot l.rule now ≡ s → is_known l uid now ≡ false)
      → AllIn l.rule s times
      → let_in decimal l uid k times ≡ min (length times) (c - k)
  unfolding let_in
  let_in-fresh l c k [] e b f h = omega arith
  let_in-fresh l c k (now ∷ times) e b f h =
      let r = acquire_slot decimal l uid now (counts k) in
      let n = f now h.0 in
      let a = after_unknown decimal l uid now k n in
      let next : int64_of (k + 1) ≡ pos (k + 1) = small_int64 (k + 1) (omega (arith, b)) in
      let within = AllIn-rule r.0.rule l.rule s times a.2 h.1 in
      let items : Item = record { time_slot = slot l.rule now; count = int64_of (k + 1) } in
      elim (Bool-cases (over_count l.rule (int64_of (k + 1)))) [
        | inl o ↦
            let rest = let_in-over r.0 (k + 1) times items a.0 h.0 (rw a.2 o) within in
            rw (a.1, o, n, rest) (over_min c k (length times) (rw (e, next) at o))
        | inr o ↦
            let rest =
              let_in-fresh r.0 c (k + 1) times (rw a.2 e) (omega (arith, b))
                (λ t i. not_known r.0 uid t items a.0 (rw a.2 o)) within in
            rw (a.1, o, n, rest) (under_min c k (length times) (rw (e, next) at o))
      ]

unknown_user :
    (l : DistributedLimiter) (uid : Str) (now : ℕ)
    → lookup uid l.status ≡ none
    → is_known l uid now ≡ false
unknown_user l uid now h = rw (h, is_known) refl

-- A user who is not known locally sends requests within one slot of time, which redis counts from `k` on,
-- without an error and below 2^63, and no other server asks it in between. When the configured count
-- is `c`, as many requests get through as there are, or as the count still leaves, whichever is less.
pub let_in-min :
    (decimal : ℕ → Str) (l : DistributedLimiter) (uid : Str) (s c k : ℕ) (times : List ℕ)
    → l.rule.count ≡ pos c
    → k + length times < 2 ^ 63
    → lookup uid l.status ≡ none
    → AllIn l.rule s times
    → let_in decimal l uid k times ≡ min (length times) (c - k)
let_in-min decimal l uid s c k times e b h slots =
    let_in-fresh decimal uid s l c k times e b (λ now i. unknown_user l uid now h) slots
