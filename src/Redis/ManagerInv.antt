-- ===== src/Redis/ManagerInv.antt =====
-- src/redis/redis_manager.cpp: the current servers stay inside their partitions.
use bcm_server.Redis.Placement.{
  Placed, Sound, absurd_some, grown-AllInside, insert-AllInside, mod_below, move-Sound, same_length,
  str_eq_flip,
}
use bcm_server.Redis.ManagerBack.{go_back_all-Sound}
use bcm_server.Base.{
  Bool-cases, IsMap, List, Map, Option, Option-cases, Str, [], ap, arith, inl, inr, insert, length,
  lookup, lookup-insert, none, refl, some, str_eq, str_eq_iff, subst, suc, sym, zero, ℕ, ◌%◌, ◌+◌,
  ◌<◌, ◌∙◌, ◌∷◌, ◌≡◌, str_key, nat_key,
}
use bcm_server.Redis.Manager.{
  Connect, RedisConn, RedisDbManager, RedisServer, command_loop, config_loop, get_next_redis,
  get_redis, on_conn, put_partition, run_command, servers_from, set_redis_db_config,
}
use bcm_server.Base.Decimal.{decimal}
use bcm_server.Redis.Commands.{update_redis_conn_period}

get_next_redis-Sound : (m : RedisDbManager) (name : Str) → Sound m → Sound (get_next_redis m name).0
unfolding get_next_redis
get_next_redis-Sound m name h = elim (Option-cases (lookup name m.partitions)) [
  | inl e ↦ rw (e, get_next_redis) h
  | inr (servers, e) ↦
      let k = h.0 name servers e in
      rw (e, k.1, get_next_redis)
        (move-Sound m name servers ((k.0 + 1) % length servers) h e
          (mod_below (k.0 + 1) (length servers) k.0 k.2))
]

module _ {ℓ} {R : Type ℓ} (connect : Connect) (command : RedisConn → Option R) (name : Str) where
  command_loop-Sound :
      (n i : ℕ) (m : RedisDbManager) (server : Option RedisServer)
      → Sound m
      → Sound (command_loop connect command n i m name server).0
  unfolding command_loop
  command_loop-Sound zero i m server h = h
  command_loop-Sound (suc n) i m none h = h
  command_loop-Sound (suc n) i m (some s) h = elim (Option-cases (on_conn (connect i s) command)) [
    | inr (r, e) ↦ rw (e, command_loop) h
    | inl e ↦
        rw (e, command_loop)
          (command_loop-Sound n (i + 1) (get_next_redis m name).0 (get_next_redis m name).1
            (get_next_redis-Sound m name h))
  ]

  any_command-Sound : (m : RedisDbManager) → Sound m → Sound (run_command connect command m name).0
  unfolding run_command
  any_command-Sound m h = elim (Option-cases (get_redis m name)) [
    | inl e ↦ rw (e, run_command) h
    | inr ((servers, s), e) ↦
        rw (e, run_command) (command_loop-Sound (length servers) 0 m (some s) h)
  ]

put_partition-Placed :
    (m : RedisDbManager) (name : Str) (servers : List RedisServer)
    → Placed m
    → 0 < length servers
    → Placed (put_partition m name servers)
unfolding put_partition
put_partition-Placed m name servers h some_server other others f =
    let k = sym (lookup-insert name other servers m.partitions) ∙ f in
    elim (Bool-cases (str_eq name other)) [
      | inl g ↦ (
        0,
        rw (lookup-insert name other 0 m.curr_partition_conn) (rw g refl),
        subst (λ n. 0 < n) (same_length (rw g at k)) some_server,
      )
      | inr g ↦
          let old = h other others (rw g at k) in
          (old.0, rw (lookup-insert name other 0 m.curr_partition_conn) (rw g old.1), old.2)
    ]

-- A partition that is new.
put_partition-Sound :
    (m : RedisDbManager) (name : Str) (servers : List RedisServer)
    → lookup name m.curr_partition_conn ≡ none
    → Sound m
    → 0 < length servers
    → Sound (put_partition m name servers)
unfolding put_partition
put_partition-Sound m name servers fresh h some_server = (
  put_partition-Placed m name servers h.0 some_server,
  insert-AllInside (insert name servers m.partitions) name servers 0 m.curr_partition_conn
      (lookup-insert name name servers m.partitions ∙ rw ((str_eq_iff name name).1 refl) refl)
      some_server (grown-AllInside m.partitions name servers m.curr_partition_conn fresh h.1),
)

absurd_none : {servers : List RedisServer} {A : Type 0} → none ≡ some servers → A
absurd_none e = cc

length-servers_from :
    (n j : ℕ) (config : Map Str RedisServer) (servers : List RedisServer)
    → servers_from n j config ≡ some servers
    → length servers ≡ n
unfolding servers_from
length-servers_from zero j config servers e = sym (same_length e)
length-servers_from (suc n) j config servers e = elim (Option-cases (lookup (decimal j) config)) [
  | inl f ↦ absurd_none (rw (f, servers_from) at e)
  | inr (s, f) ↦ elim (Option-cases (servers_from n (j + 1) config)) [
    | inl g ↦ absurd_none (rw (f, g, servers_from) at e)
    | inr (rest, g) ↦
        sym (same_length (rw (f, g, servers_from) at e))
        ∙ ap suc (length-servers_from n (j + 1) config rest g)
  ]
]

-- No partition of a configuration has a current server yet.
abbrev AllNew : Map Str ℕ → Map Str (Map Str RedisServer) → Type 0
AllNew conns [] = Unit
AllNew conns ((name, servers) ∷ rest) = (lookup name conns ≡ none) × AllNew conns rest

AllNew-insert :
    (conns : Map Str ℕ) (name : Str) (config : Map Str (Map Str RedisServer))
    → lookup name config ≡ none
    → AllNew conns config
    → AllNew (insert name 0 conns) config
unfolding lookup
AllNew-insert conns name [] e h = tt
AllNew-insert conns name ((i, servers) ∷ rest) e h = elim (Bool-cases (str_eq i name)) [
  | inl f ↦ absurd_some (rw f at e)
  | inr f ↦ (
    lookup-insert name i 0 conns ∙ rw (str_eq_flip i name f) h.0,
    AllNew-insert conns name rest (rw f at e) h.1,
  )
]

config_loop-Sound :
    (m : RedisDbManager) (config : Map Str (Map Str RedisServer))
    → IsMap config
    → AllNew m.curr_partition_conn config
    → Sound m
    → Sound (config_loop m config).0
unfolding config_loop put_partition
config_loop-Sound m [] d n h = h
config_loop-Sound m ((name, []) ∷ rest) d n h = h
config_loop-Sound m ((name, s ∷ servers) ∷ rest) d n h =
    elim (Option-cases (servers_from (length (s ∷ servers)) 0 (s ∷ servers))) [
      | inl e ↦ rw (e, config_loop) h
      | inr (conns, e) ↦
          let long = length-servers_from (length (s ∷ servers)) 0 (s ∷ servers) conns e in
          rw (e, config_loop)
            (config_loop-Sound (put_partition m name conns) rest d.1
              (AllNew-insert m.curr_partition_conn name rest d.0 n.1)
              (put_partition-Sound m name conns n.0 h (omega (arith, long))))
    ]

-- A manager as it is made.
abbrev pub no_partition : ℕ → RedisDbManager
no_partition n = record {
  partitions = [];
  curr_partition_conn = [];
  consistent_hash = record { number_of_replicas = n; server_circle = [] };
}

AllNew-empty : (config : Map Str (Map Str RedisServer)) → AllNew [] config
unfolding lookup
AllNew-empty [] = tt
AllNew-empty ((name, servers) ∷ rest) = (refl, AllNew-empty rest)

pub no_partition-Sound : (n : ℕ) → Sound (no_partition n)
unfolding lookup
no_partition-Sound n = (λ name servers e. cc, tt)

configured-Sound :
    (n : ℕ) (config : Map Str (Map Str RedisServer))
    → IsMap config
    → Sound (set_redis_db_config (no_partition n) config).0
unfolding set_redis_db_config
configured-Sound n [] d = no_partition-Sound n
configured-Sound n (c ∷ config) d =
    config_loop-Sound (no_partition n) (c ∷ config) d (AllNew-empty (c ∷ config))
      (no_partition-Sound n)

-- A manager is sound if every partition has a current server, which is one of its servers, and every
-- entry of the table of current servers is that of a partition, and one of its servers. A new manager
-- is sound after a configuration that names each partition once, also when it is refused. A sound
-- manager stays so through every command, whatever the connections answer, and the periodic way back
-- ends without a read past the servers of a partition and leaves it sound.
pub operations-Sound {ℓ} :
    {R : Type ℓ} (m : RedisDbManager) (connect : Connect) (command : RedisConn → Option R)
    (name : Str) (n : ℕ) (config : Map Str (Map Str RedisServer))
    → IsMap config
    → Sound m
    → Sound (set_redis_db_config (no_partition n) config).0
      × Sound (run_command connect command m name).0
      × ((m' : RedisDbManager) × (update_redis_conn_period connect m ≡ some m') × Sound m')
unfolding update_redis_conn_period
operations-Sound m connect command name n config d h = (
  configured-Sound n config d,
  any_command-Sound connect command name m h,
  go_back_all-Sound connect m m.curr_partition_conn h.1 h,
)
