-- ===== src/Redis/ManagerBack.antt =====
-- src/redis/redis_manager.cpp: the periodic way back stays inside the partitions.
use bcm_server.Redis.Placement.{AllInside, Sound, move-Sound}
use bcm_server.Base.{
  Bool-cases, List, Map, Option, Option-cases, Str, [], arith, get_elem?, inl, inr, insert, length,
  lookup, ltb, none, refl, some, subst, suc, sym, zero, ℕ, ◌&&◌, ◌+◌, ◌<◌, ◌∷◌, ◌≡◌, ◌≤◌, str_key,
  nat_key,
}
use bcm_server.Redis.Manager.{Connect, RedisDbManager, RedisServer}
use bcm_server.Redis.Commands.{find_earlier, go_back, go_back_all, takes_mark}

some_elem :
    (servers : List RedisServer) (i : ℕ)
    → i < length servers
    → (s : RedisServer) × (get_elem? servers i ≡ some s)
some_elem [] i h = elim h [ ]
some_elem (s ∷ servers) zero h = (s, refl)
some_elem (s ∷ servers) (suc i) h = some_elem servers i (omega arith)

-- No server to go back to, or one that is there.
abbrev IsServer : List RedisServer → Option ℕ → Type 0
IsServer servers none = Unit
IsServer servers (some id) = id < length servers

find_earlier-some :
    (connect : Connect) (servers : List RedisServer) (n i c : ℕ)
    → i + n ≤ length servers
    → (o : Option ℕ) × (find_earlier connect servers n i c ≡ some o) × IsServer servers o
unfolding find_earlier
find_earlier-some connect servers zero i c h = (none, refl, tt)
find_earlier-some connect servers (suc n) i c h =
    let here = some_elem servers i (omega arith) in
    let rest = find_earlier-some connect servers n (i + 1) c (omega arith) in
    elim (Bool-cases (takes_mark connect i here.0 && ltb i c)) [
      | inl f ↦ (some i, rw (here.1, find_earlier) (rw f refl), omega arith)
      | inr f ↦ (rest.0, rw (here.1, find_earlier) (rw f rest.1), rest.2)
    ]

-- A step back does not leave the servers, and changes no partition.
abbrev Kept : RedisDbManager → RedisDbManager → Type 0
Kept m m' = Sound m' × (m'.partitions ≡ m.partitions)

go_back-Kept :
    (connect : Connect) (m : RedisDbManager) (name : Str) (c : ℕ) (servers : List RedisServer)
    → lookup name m.partitions ≡ some servers
    → c < length servers
    → Sound m
    → (m' : RedisDbManager) × (go_back connect m name c ≡ some m') × Kept m m'
unfolding go_back
go_back-Kept connect m name c servers e below h =
    let found = find_earlier-some connect servers (c + 1) 0 c (omega arith) in
    elim (Option-cases found.0) [
      | inl f ↦ (m, rw (e, found.1, go_back) (rw f refl), (h, refl))
      | inr (id, f) ↦ (
        record m { curr_partition_conn = insert name id m.curr_partition_conn },
        rw (e, found.1, go_back) (rw f refl),
        (move-Sound m name servers id h e (subst (IsServer servers) f found.2), refl),
      )
    ]

pub go_back_all-Sound :
    (connect : Connect) (m : RedisDbManager) (conns : Map Str ℕ)
    → AllInside m.partitions conns
    → Sound m
    → (m' : RedisDbManager) × (go_back_all connect m conns ≡ some m') × Sound m'
unfolding go_back_all
go_back_all-Sound connect m [] a h = (m, refl, h)
go_back_all-Sound connect m ((name, c) ∷ rest) a h =
    let one = go_back-Kept connect m name c a.0.0 a.0.1 a.0.2 h in
    let others =
      go_back_all-Sound connect one.0 rest (subst (λ p. AllInside p rest) (sym one.2.1) a.1)
        one.2.0 in
    (others.0, rw (one.1, go_back_all) others.1, others.2)
