-- ===== src/Redis/Failover.antt =====
-- src/redis/redis_manager.cpp: which server of a partition a command ends at.
use native.Mathlib.Nat.{add-mod_right, mod-add-mod, mod-eq_of_lt}
use bcm_server.Base.{
  Bool-cases, List, Option, Str, [], ap, arith, false, get_elem?, if◌then◌else◌, inl, inr, is_empty,
  length, lookup, lookup-insert, ltb, none, refl, some, str_eq, str_eq_iff, subst, suc, sym, zero,
  ℕ, ◌%◌, ◌+◌, ◌<◌, ◌∙◌, ◌∷◌, ◌≡◌, ◌≤◌, str_key, nat_key,
}
use bcm_server.Redis.Manager.{
  Connect, RedisConn, RedisDbManager, RedisServer, command_loop, get_next_redis, get_redis, on_conn,
  run_command,
}

-- A manager whose partition `name` has `servers`, with the current one at `c`.
abbrev pub IsAt : RedisDbManager → Str → List RedisServer → ℕ → Type 0
IsAt m name servers c =
    (lookup name m.partitions ≡ some servers) × (lookup name m.curr_partition_conn ≡ some c)

-- What attempt `i` brings, when the first one goes to server `c`.
abbrev pub attempt {ℓ} :
    {R : Type ℓ} → Connect → (RedisConn → Option R) → List RedisServer → ℕ → ℕ → Option R
attempt connect command servers c i = elim (get_elem? servers ((c + i) % length servers)) [
  | none ↦ none
  | some s ↦ on_conn (connect i s) command
]

-- What is left alone but for the current server of `name`, which is `c` now.
abbrev pub IsMoved : RedisDbManager → Str → ℕ → RedisDbManager → Type 0
IsMoved m name c m' =
    (m'.partitions ≡ m.partitions)
    × (m'.consistent_hash ≡ m.consistent_hash)
    × ((other : Str)
        → lookup other m'.curr_partition_conn
          ≡ (if str_eq name other then some c else lookup other m.curr_partition_conn))

next_mod : (n c i : ℕ) → 0 < n → ((c + i) % n + 1) % n ≡ (c + (i + 1)) % n
next_mod n c i h = mod-add-mod (c + i) n 1 ∙ ap (λ x. x % n) (omega arith)

absurd_lt : (i j : ℕ) → i ≤ j → j < i + 0 → ⊥
absurd_lt i j low high = omega arith

shift : (i n : ℕ) → i + 1 + n ≡ i + suc n
shift i n = omega arith

i_zero : (i : ℕ) → i + 0 ≡ i
i_zero i = omega arith

elem_at :
    (servers : List RedisServer) (i : ℕ)
    → i < length servers
    → (s : RedisServer) × (get_elem? servers i ≡ some s)
elem_at [] i h = elim h [ ]
elem_at (s ∷ servers) zero h = (s, refl)
elem_at (s ∷ servers) (suc i) h = elem_at servers i (omega arith)

found : {A : Type 0} (x y : A) (name : Str) → (if str_eq name name then x else y) ≡ x
found x y name = rw ((str_eq_iff name name).1 refl) refl

mod_below : (x n : ℕ) → 0 < n → x % n < n
mod_below x zero h = elim h [ ]
mod_below x (suc n) h = omega arith

IsAt-IsMoved :
    (m : RedisDbManager) (name : Str) (servers : List RedisServer) (c : ℕ)
    → IsAt m name servers c
    → IsMoved m name c m
IsAt-IsMoved m name servers c a = (
  refl,
  refl,
  λ other. elim (Bool-cases (str_eq name other)) [
    | inl e ↦
        rw e
          (subst (λ o. lookup o m.curr_partition_conn ≡ some c) ((str_eq_iff name other).0 e) a.1)
    | inr e ↦ rw e refl
  ],
)

IsMoved-IsMoved :
    (m m' m'' : RedisDbManager) (name : Str) (c c' : ℕ)
    → IsMoved m name c m'
    → IsMoved m' name c' m''
    → IsMoved m name c' m''
IsMoved-IsMoved m m' m'' name c c' h h' =
    (h'.0 ∙ h.0, h'.1 ∙ h.1, λ other. ground (arith, h'.2 other, h.2 other))

next-IsAt :
    (m : RedisDbManager) (name : Str) (servers : List RedisServer) (c i : ℕ)
    → 0 < length servers
    → IsAt m name servers ((c + i) % length servers)
    → IsAt (get_next_redis m name).0 name servers ((c + (i + 1)) % length servers)
      × ((get_next_redis m name).1 ≡ get_elem? servers ((c + (i + 1)) % length servers))
      × IsMoved m name ((c + (i + 1)) % length servers) (get_next_redis m name).0
unfolding get_next_redis
next-IsAt m name servers c i h a =
    rw (a.0, a.1, next_mod (length servers) c i h, get_next_redis)
      (
        (a.0, lookup-insert name name _ m.curr_partition_conn ∙ found _ _ name),
        refl,
        (refl, refl, λ other. lookup-insert name other _ m.curr_partition_conn),
      )

module _ {ℓ} {R : Type ℓ} (connect : Connect) (command : RedisConn → Option R) (name : Str)
    (servers : List RedisServer) (c : ℕ) (some_server : 0 < length servers) where
  -- The loop stops at an attempt that succeeds.
  loop_hit :
      (n i : ℕ) (m : RedisDbManager) (r : R)
      → attempt connect command servers c i ≡ some r
      → command_loop connect command (suc n) i m name (get_elem? servers ((c + i) % length servers))
        ≡ (m, some r)
  unfolding command_loop
  loop_hit n i m r e =
      let here = elem_at servers ((c + i) % length servers) (mod_below (c + i) _ some_server) in
      let answer : on_conn (connect i here.0) command ≡ some r = rw (here.1, attempt) at e in
      rw (here.1, command_loop) (rw answer refl)

  -- After one that fails it asks the next server.
  loop_miss :
      (n i : ℕ) (m : RedisDbManager)
      → attempt connect command servers c i ≡ none
      → IsAt m name servers ((c + i) % length servers)
      → command_loop connect command (suc n) i m name (get_elem? servers ((c + i) % length servers))
        ≡ command_loop connect command n
            (i + 1)
            (get_next_redis m name).0
            name
            (get_elem? servers ((c + (i + 1)) % length servers))
  unfolding command_loop
  loop_miss n i m e a =
      let here = elem_at servers ((c + i) % length servers) (mod_below (c + i) _ some_server) in
      let answer : on_conn (connect i here.0) command ≡ none = rw (here.1, attempt) at e in
      let next = next-IsAt m name servers c i some_server a in
      rw (here.1, command_loop)
        (rw answer
          (ap (command_loop connect command n (i + 1) (get_next_redis m name).0 name) next.1))

  loop_ends :
      (left i j : ℕ) (m : RedisDbManager) (r : R)
      → i ≤ j
      → j < i + left
      → ((k : ℕ) → k < j → attempt connect command servers c k ≡ none)
      → attempt connect command servers c j ≡ some r
      → IsAt m name servers ((c + i) % length servers)
      → let end =
          command_loop connect command left i m name
            (get_elem? servers ((c + i) % length servers)) in
        (end.1 ≡ some r) × IsMoved m name ((c + j) % length servers) end.0
  loop_ends zero i j m r low high fails e a = elim (absurd_lt i j low high) [ ]
  loop_ends (suc left) i j m r low high fails e a = elim (Bool-cases (ltb i j)) [
    | inr f ↦
        let same : j ≡ i = ground arith in
        rw (loop_hit left i m r (subst (λ k. attempt connect command servers c k ≡ some r) same e))
          (
            refl,
            subst (λ k. IsMoved m name ((c + k) % length servers) m) (sym same)
                (IsAt-IsMoved m name servers _ a),
          )
    | inl f ↦
        let next = next-IsAt m name servers c i some_server a in
        let rest =
          loop_ends left (i + 1) j (get_next_redis m name).0 r (ground arith) (omega arith) fails e
            next.0 in
        rw (loop_miss left i m (fails i (ground arith)) a)
          (rest.0, IsMoved-IsMoved m _ _ name _ _ next.2 rest.1)
  ]

  loop_fails :
      (left i : ℕ) (m : RedisDbManager)
      → ((k : ℕ) → k < i + left → attempt connect command servers c k ≡ none)
      → IsAt m name servers ((c + i) % length servers)
      → let end =
          command_loop connect command left i m name
            (get_elem? servers ((c + i) % length servers)) in
        (end.1 ≡ none) × IsMoved m name ((c + (i + left)) % length servers) end.0
  unfolding command_loop
  loop_fails zero i m fails a = (refl, rw (i_zero i) (IsAt-IsMoved m name servers _ a))
  loop_fails (suc left) i m fails a =
      let next = next-IsAt m name servers c i some_server a in
      let rest =
        loop_fails left (i + 1) (get_next_redis m name).0 (λ k h. fails k (omega arith)) next.0 in
      let m' =
        (command_loop connect command left (i + 1) (get_next_redis m name).0 name
          (get_elem? servers ((c + (i + 1)) % length servers))).0 in
      rw (loop_miss left i m (fails i (omega arith)) a) (
        rest.0,
        subst (λ x. IsMoved m name ((c + x) % length servers) m') (shift i left)
            (IsMoved-IsMoved m _ m' name _ _ next.2 rest.1),
      )

run_command_loop {ℓ} :
    {R : Type ℓ} (connect : Connect) (command : RedisConn → Option R) (m : RedisDbManager)
    (name : Str) (servers : List RedisServer) (c : ℕ)
    → is_empty name ≡ false
    → IsAt m name servers c
    → c < length servers
    → run_command connect command m name
      ≡ command_loop connect command (length servers) 0 m name (get_elem? servers c)
unfolding run_command get_redis
run_command_loop connect command m name servers c e a h =
    let here = elem_at servers c h in rw (e, a.0, a.1, here.1, get_redis, run_command) refl

mod_small : (c n : ℕ) → c < n → (c + 0) % n ≡ c
mod_small c n h = ap (λ x. x % n) (i_zero c) ∙ mod-eq_of_lt h

no_shift : (c n : ℕ) → c + (0 + n) ≡ c + n
no_shift c n = omega arith

mod_round : (c n : ℕ) → c < n → (c + (0 + n)) % n ≡ c
mod_round c n h = ap (λ x. x % n) (no_shift c n) ∙ (add-mod_right c n ∙ mod-eq_of_lt h)

-- A command to a partition whose current server is `c`, when the connections refuse the first `j`
-- attempts, of fewer than there are servers, and attempt `j` brings an answer: it has
-- that answer, the partition stays at the server that gave it, `j` places on in the circle, and
-- nothing else changes.
pub run_command-first {ℓ} :
    {R : Type ℓ} (connect : Connect) (command : RedisConn → Option R) (m : RedisDbManager)
    (name : Str) (servers : List RedisServer) (c j : ℕ) (r : R)
    → is_empty name ≡ false
    → IsAt m name servers c
    → c < length servers
    → j < length servers
    → ((k : ℕ) → k < j → attempt connect command servers c k ≡ none)
    → attempt connect command servers c j ≡ some r
    → ((run_command connect command m name).1 ≡ some r)
      × IsMoved m name ((c + j) % length servers) (run_command connect command m name).0
run_command-first connect command m name servers c j r e a h low fails answer =
    let here : IsAt m name servers ((c + 0) % length servers) =
      rw (mod_small c (length servers) h) a in
    rw (run_command_loop connect command m name servers c e a h) (
      subst
        (λ i.
          let end = command_loop connect command (length servers) 0 m name (get_elem? servers i) in
          (end.1 ≡ some r) × IsMoved m name ((c + j) % length servers) end.0)
        (mod_small c (length servers) h)
        (loop_ends connect command name servers c (omega arith) (length servers) 0 j m r
          (omega arith) (omega arith) fails answer here))

-- A command that every server of a partition refuses, each at its turn, has no answer, and the partition
-- is back at the server where it was; nothing changes.
pub run_command-none {ℓ} :
    {R : Type ℓ} (connect : Connect) (command : RedisConn → Option R) (m : RedisDbManager)
    (name : Str) (servers : List RedisServer) (c : ℕ)
    → is_empty name ≡ false
    → IsAt m name servers c
    → c < length servers
    → ((k : ℕ) → k < length servers → attempt connect command servers c k ≡ none)
    → ((run_command connect command m name).1 ≡ none)
      × IsMoved m name c (run_command connect command m name).0
run_command-none connect command m name servers c e a h fails =
    let here : IsAt m name servers ((c + 0) % length servers) =
      rw (mod_small c (length servers) h) a in
    let n = length servers in
    rw (run_command_loop connect command m name servers c e a h) (
      subst
        (λ i.
          let end = command_loop connect command n 0 m name (get_elem? servers i) in
          (end.1 ≡ none) × IsMoved m name c end.0)
        (mod_small c n h)
        (subst
          (λ i.
            let end = command_loop connect command n 0 m name (get_elem? servers ((c + 0) % n)) in
            (end.1 ≡ none) × IsMoved m name i end.0)
          (mod_round c n h)
          (loop_fails connect command name servers c (omega arith) n 0 m
            (λ k f. fails k (omega arith)) here)))
