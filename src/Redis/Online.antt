-- ===== src/Redis/Online.antt =====
-- src/redis/online_redis_manager.cpp: OnlineRedisManager, which finds a partition on the ring of their names.
use bcm_server.Base.{
  Bool, List, Map, Option, Str, [], eqb, false, if◌then◌else◌, insert, is_empty, lookup, none, some,
  true, ℕ, ◌∷◌, str_key, nat_key,
}
use bcm_server.Utils.Ring.{Ring, add_server, get_server_by_key}
use bcm_server.Redis.Partition
use bcm_server.Redis.Partition.{Answer, RedisPartition, Reply, keep_alive_channel, try_publish}

pub record OnlineRedisManager : Type 0 where
  pub partitions : Map Str RedisPartition
  pub consistent_hash : Ring

abbrev pub no_connection : RedisPartition
no_connection = record { sub_chans = []; psub_chans = []; available_subs = []; available_pubs = [] }

-- `init`: each partition with how many servers it has. It stops at the first that has none.
unfoldable pub init_from : OnlineRedisManager → List (Str × ℕ) → OnlineRedisManager × Bool
init_from m [] = (m, true)
init_from m ((name, servers) ∷ rest) =
    let others =
      init_from
        (record m {
          partitions = insert name no_connection m.partitions;
          consistent_hash = add_server m.consistent_hash name;
        })
        rest in
    if eqb servers 0 then (m, false) else others

unfoldable pub init : OnlineRedisManager → List (Str × ℕ) → OnlineRedisManager × Bool
unfolding init_from
init m config = if is_empty config then (m, false) else init_from m config

unfoldable pub partition_by_hash_key : OnlineRedisManager → Str → Option RedisPartition
partition_by_hash_key m hash_key =
    let name = get_server_by_key m.consistent_hash hash_key in
    if is_empty name then none else lookup name m.partitions

-- An operation of the partition of a key; `false` where there is none.
unfoldable pub with_partition :
    OnlineRedisManager → Str → (RedisPartition → RedisPartition × Bool) → OnlineRedisManager × Bool
unfolding partition_by_hash_key
with_partition m hash_key f = elim (partition_by_hash_key m hash_key) [
  | none ↦ (m, false)
  | some r ↦ (
    record m {
      partitions = insert (get_server_by_key m.consistent_hash hash_key) (f r).0 m.partitions;
    },
    (f r).1,
  )
]

unfoldable pub subscribe : OnlineRedisManager → Str → Str → ℕ → OnlineRedisManager × Bool
unfolding with_partition
subscribe m hash_key chan handler =
    with_partition m hash_key (λ r. Partition.subscribe r chan handler)

unfoldable pub psubscribe : OnlineRedisManager → Str → Str → ℕ → OnlineRedisManager × Bool
unfolding with_partition
psubscribe m hash_key chan handler =
    with_partition m hash_key (λ r. Partition.psubscribe r chan handler)

unfoldable pub unsubscribe : OnlineRedisManager → Str → Str → OnlineRedisManager × Bool
unfolding with_partition
unsubscribe m hash_key chan = with_partition m hash_key (λ r. Partition.unsubscribe r chan)

unfoldable pub punsubscribe : OnlineRedisManager → Str → OnlineRedisManager × Bool
unfolding with_partition
punsubscribe m chan = with_partition m chan (λ r. Partition.punsubscribe r chan)

unfoldable pub is_subscribed : OnlineRedisManager → Str → Str → Bool
unfolding partition_by_hash_key
is_subscribed m hash_key chan = elim (partition_by_hash_key m hash_key) [
  | none ↦ false
  | some r ↦ Partition.is_subscribed r chan
]

-- What the handler is called with, if it is called, and the result, where redis comes back with
-- `status` and `reply`.
unfoldable pub publish : OnlineRedisManager → Str → Bool → Reply → Option Answer × Bool
unfolding partition_by_hash_key
publish m hash_key status reply = elim (partition_by_hash_key m hash_key) [
  | none ↦ (none, false)
  | some r ↦ ((try_publish r status reply).1, (try_publish r status reply).2)
]

unfoldable pub keep_alive_all : Map Str RedisPartition → Map Str RedisPartition
keep_alive_all [] = []
keep_alive_all ((n, r) ∷ rest) =
    (n, (Partition.unsubscribe r keep_alive_channel).0) ∷ keep_alive_all rest

-- `runKeepAlive`, for every partition.
unfoldable pub run_keep_alive : OnlineRedisManager → OnlineRedisManager
run_keep_alive m = record m { partitions = keep_alive_all m.partitions }
