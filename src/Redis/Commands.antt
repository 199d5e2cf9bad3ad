-- ===== src/Redis/Commands.antt =====
-- src/redis/redis_manager.cpp: the commands of RedisDbManager, and the way back to an earlier server.
use bcm_server.Base.Int.{pos, ℤ}
use bcm_server.Base.Int.{pos, ℤ}
use bcm_server.Base.{
  Bool, List, Map, Option, Str, [], codes, get_elem?, if◌then◌else◌, insert, is_some, lookup, ltb,
  none, some, suc, true, zero, ℕ, ◌&&◌, ◌+◌, ◌∷◌, str_key, nat_key,
}
use bcm_server.Utils.Ring.{get_server, get_server_by_key}
use bcm_server.Redis.Manager.{Connect, RedisConn, RedisDbManager, RedisServer, on_conn, run_command}

unfoldable pub run_by_gid {ℓ} :
    {R : Type ℓ} → Connect → RedisDbManager → ℕ → (RedisConn → Option R) → RedisDbManager × Option R
unfolding run_command
run_by_gid connect m gid command = run_command connect command m (get_server m.consistent_hash gid)

unfoldable pub run_by_key {ℓ} :
    {R : Type ℓ}
    → Connect
    → RedisDbManager
    → Str
    → (RedisConn → Option R)
    → RedisDbManager × Option R
unfolding run_command
run_by_key connect m hash_key command =
    run_command connect command m (get_server_by_key m.consistent_hash hash_key)

-- A command that answers `true` or fails.
abbrev pub succeeds : Bool → Option Bool
succeeds b = if b then some true else none

-- Its result: `false` when no server has answered `true`.
abbrev pub is_done : RedisDbManager × Option Bool → RedisDbManager × Bool
is_done out = (out.0, is_some out.1)

unfoldable pub hset : Connect → RedisDbManager → ℕ → Str → Str → Str → RedisDbManager × Bool
unfolding run_by_gid
hset connect m gid key field value =
    is_done
      (run_by_gid connect m gid (λ c. succeeds (c.redis_cmd_args3 (codes "HSET") key field value)))

unfoldable pub hmset : Connect → RedisDbManager → ℕ → Str → List (Str × Str) → RedisDbManager × Bool
unfolding run_by_gid
hmset connect m gid key values =
    is_done (run_by_gid connect m gid (λ c. succeeds (c.hmset key values)))

unfoldable pub hget : Connect → RedisDbManager → ℕ → Str → Str → RedisDbManager × Option Str
unfolding run_by_gid
hget connect m gid key field = run_by_gid connect m gid (λ c. c.hget key field)

unfoldable pub hmget :
    Connect → RedisDbManager → ℕ → Str → List Str → RedisDbManager × Option (Map Str Str)
unfolding run_by_gid
hmget connect m gid key fields = run_by_gid connect m gid (λ c. c.hmget key fields)

unfoldable pub hdel : Connect → RedisDbManager → ℕ → Str → List Str → RedisDbManager × Bool
unfolding run_by_gid
hdel connect m gid key fields =
    is_done (run_by_gid connect m gid (λ c. succeeds (c.hdel key fields)))

unfoldable pub zadd : Connect → RedisDbManager → ℕ → Str → Str → ℤ → RedisDbManager × Bool
unfolding run_by_gid
zadd connect m gid key mem score =
    is_done (run_by_gid connect m gid (λ c. succeeds (c.zadd key mem score)))

-- The result and the new value; `none` is the result -1.
unfoldable pub incr : Connect → RedisDbManager → Str → Str → RedisDbManager × Option (ℕ × ℕ)
unfolding run_by_key
incr connect m hash_key key = run_by_key connect m hash_key (λ c. c.incr key)

unfoldable pub del : Connect → RedisDbManager → Str → Str → RedisDbManager × Bool
unfolding run_by_key
del connect m hash_key key = is_done (run_by_key connect m hash_key (λ c. succeeds (c.del key)))

-- `none` is the result -1, here and in `ttl`.
unfoldable pub expire : Connect → RedisDbManager → Str → Str → ℕ → RedisDbManager × Option ℕ
unfolding run_by_key
expire connect m hash_key key timeout = run_by_key connect m hash_key (λ c. c.expire key timeout)

unfoldable pub ttl : Connect → RedisDbManager → Str → Str → RedisDbManager × Option ℕ
unfolding run_by_key
ttl connect m hash_key key = run_by_key connect m hash_key (λ c. c.ttl key)

unfoldable pub set : Connect → RedisDbManager → Str → Str → Str → ℤ → RedisDbManager × Bool
unfolding run_by_key
set connect m hash_key key value exptime =
    is_done (run_by_key connect m hash_key (λ c. succeeds (c.set key value exptime)))

unfoldable pub get : Connect → RedisDbManager → Str → Str → RedisDbManager × Option Str
unfolding run_by_key
get connect m hash_key key = run_by_key connect m hash_key (λ c. c.get key)

abbrev pub active_key : Str
active_key = codes "group_msg_active"

-- Whether a server takes the mark that shows that it is there.
unfoldable pub takes_mark : Connect → ℕ → RedisServer → Bool
unfolding on_conn
takes_mark connect id s =
    is_some (on_conn (connect id s) (λ c. succeeds (c.set active_key (codes "active") (pos 15))))

-- The first server from `id` on that takes the mark, of the `n` that are asked; the one at `c` is asked
-- as well and does not count. `none` is a read past the end of the servers.
unfoldable pub find_earlier : Connect → List RedisServer → ℕ → ℕ → ℕ → Option (Option ℕ)
unfolding takes_mark
find_earlier connect servers zero id c = some none
find_earlier connect servers (suc n) id c = elim (get_elem? servers id) [
  | none ↦ none
  | some s ↦
      let rest = find_earlier connect servers n (id + 1) c in
      if takes_mark connect id s && ltb id c then some (some id) else rest
]

-- A partition that has no servers here is made up as an empty one, and read past its end: `none` again.
unfoldable pub go_back : Connect → RedisDbManager → Str → ℕ → Option RedisDbManager
unfolding find_earlier
go_back connect m name c = elim (lookup name m.partitions) [
  | none ↦ none
  | some servers ↦ elim (find_earlier connect servers (c + 1) 0 c) [
    | none ↦ none
    | some none ↦ some m
    | some (some id) ↦
        some (record m { curr_partition_conn = insert name id m.curr_partition_conn })
  ]
]

unfoldable pub go_back_all : Connect → RedisDbManager → Map Str ℕ → Option RedisDbManager
unfolding go_back
go_back_all connect m [] = some m
go_back_all connect m ((name, c) ∷ rest) = elim (go_back connect m name c) [
  | none ↦ none
  | some m' ↦ go_back_all connect m' rest
]

unfoldable pub update_redis_conn_period : Connect → RedisDbManager → Option RedisDbManager
unfolding go_back_all
update_redis_conn_period connect m = go_back_all connect m m.curr_partition_conn
