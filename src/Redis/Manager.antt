-- ===== src/Redis/Manager.antt =====
-- src/redis/redis_manager.cpp: RedisDbManager, whose commands try the servers of a partition in turn.
-- What comes back from a server (redis/hiredis_client.cpp) is given by `connect`, for each attempt. An
-- operation is one step, and the maps are taken in the order in which the source goes through them.
use bcm_server.Base.Int.{ℤ}
use bcm_server.Base.{
  Bool, List, Map, Option, Str, [], false, get_elem?, if◌then◌else◌, insert, is_empty, length,
  lookup, none, or_else, some, suc, true, zero, ℕ, ◌%◌, ◌+◌, ◌∷◌, str_key, nat_key,
}
use bcm_server.Utils.Ring.{Ring, add_server}
use bcm_server.Base.Decimal.{decimal}

pub record RedisServer : Type 0 where
  pub ip : Str
  pub port : ℕ
  pub password : Str

-- `RedisConn`: what a command leaves in the variable of its caller, or none when it fails.
pub record RedisConn : Type 0 where
  pub redis_cmd_args3 : Str → Str → Str → Str → Bool
  pub hmset : Str → List (Str × Str) → Bool
  pub hget : Str → Str → Option Str
  pub hmget : Str → List Str → Option (Map Str Str)
  pub hdel : Str → List Str → Bool
  pub zadd : Str → Str → ℤ → Bool
  pub incr : Str → Option (ℕ × ℕ)
  pub del : Str → Bool
  pub expire : Str → ℕ → Option ℕ
  pub ttl : Str → Option ℕ
  pub set : Str → Str → ℤ → Bool
  pub get : Str → Option Str

-- `getRedisConn` of a server at an attempt.
abbrev pub Connect : Type 0
Connect = ℕ → RedisServer → Option RedisConn

pub record RedisDbManager : Type 0 where
  pub partitions : Map Str (List RedisServer)
  pub curr_partition_conn : Map Str ℕ
  pub consistent_hash : Ring

-- The servers `j`, `j + 1` and so on of a partition, of which there are `n`.
unfoldable pub servers_from : ℕ → ℕ → Map Str RedisServer → Option (List RedisServer)
servers_from zero j config = some []
servers_from (suc n) j config = elim (lookup (decimal j) config) [
  | none ↦ none
  | some s ↦ elim (servers_from n (j + 1) config) [ none ↦ none | some rest ↦ some (s ∷ rest) ]
]

unfoldable pub put_partition : RedisDbManager → Str → List RedisServer → RedisDbManager
unfolding add_server
put_partition m name servers = record {
  partitions = insert name servers m.partitions;
  curr_partition_conn = insert name 0 m.curr_partition_conn;
  consistent_hash = add_server m.consistent_hash name;
}

unfoldable pub config_loop :
    RedisDbManager → List (Str × Map Str RedisServer) → RedisDbManager × Bool
unfolding servers_from put_partition
config_loop m [] = (m, true)
config_loop m ((name, []) ∷ rest) = (m, false)
config_loop m ((name, s ∷ servers) ∷ rest) =
    elim (servers_from (length (s ∷ servers)) 0 (s ∷ servers)) [
      | none ↦ (m, false)
      | some conns ↦ config_loop (put_partition m name conns) rest
    ]

unfoldable pub set_redis_db_config :
    RedisDbManager → List (Str × Map Str RedisServer) → RedisDbManager × Bool
unfolding config_loop
set_redis_db_config m config = if is_empty config then (m, false) else config_loop m config

-- A partition with its servers and the current one. An index outside of the servers, where the source
-- reads past their end, is taken for no server.
unfoldable pub get_redis : RedisDbManager → Str → Option (List RedisServer × RedisServer)
get_redis m name = if is_empty name then none else elim (lookup name m.partitions) [
  | none ↦ none
  | some servers ↦ elim (get_elem? servers (or_else (lookup name m.curr_partition_conn) 0)) [
    | none ↦ none
    | some s ↦ some (servers, s)
  ]
]

unfoldable pub get_next_redis : RedisDbManager → Str → RedisDbManager × Option RedisServer
get_next_redis m name = elim (lookup name m.partitions) [
  | none ↦ (m, none)
  | some servers ↦ elim (lookup name m.curr_partition_conn) [
    | none ↦ (m, none)
    | some c ↦
        let next = (c + 1) % length servers in
        (
          record m { curr_partition_conn = insert name next m.curr_partition_conn },
          get_elem? servers next,
        )
  ]
]

-- A command over a connection.
unfoldable pub on_conn {ℓ} : {R : Type ℓ} → Option RedisConn → (RedisConn → Option R) → Option R
on_conn none command = none
on_conn (some c) command = command c

-- The loop that all commands share, with the rounds that are left and those that are over.
unfoldable pub command_loop {ℓ} :
    {R : Type ℓ}
    → Connect
    → (RedisConn → Option R)
    → ℕ
    → ℕ
    → RedisDbManager
    → Str
    → Option RedisServer
    → RedisDbManager × Option R
unfolding on_conn get_next_redis
command_loop connect command zero i m name server = (m, none)
command_loop connect command (suc n) i m name none = (m, none)
command_loop connect command (suc n) i m name (some s) = elim (on_conn (connect i s) command) [
  | some r ↦ (m, some r)
  | none ↦
      let next = get_next_redis m name in command_loop connect command n (i + 1) next.0 name next.1
]

-- A command to the partition `name`, with one round for each of its servers.
unfoldable pub run_command {ℓ} :
    {R : Type ℓ}
    → Connect
    → (RedisConn → Option R)
    → RedisDbManager
    → Str
    → RedisDbManager × Option R
unfolding get_redis command_loop
run_command connect command m name = elim (get_redis m name) [
  | none ↦ (m, none)
  | some (servers, s) ↦ command_loop connect command (length servers) 0 m name (some s)
]
