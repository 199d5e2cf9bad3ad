-- ===== src/Redis/ManagerTests.antt =====
-- A partition of three servers of which one answers.
use bcm_server.Base.Decimal.{decimal, digits}
use bcm_server.Base.{
  List, Map, Str, [], arith, codes, eqb, false, if◌then◌else◌, insert, lookup, none, refl, some,
  suc, true, zero, ℕ, ◌<◌, ◌∷◌, ◌≡◌, str_key, nat_key,
}
use bcm_server.Redis.Placement.{Sound}
use bcm_server.Redis.ManagerInv.{no_partition, no_partition-Sound, operations-Sound}
use bcm_server.Redis.Commands.{
  find_earlier, go_back, go_back_all, takes_mark, update_redis_conn_period,
}
use bcm_server.Redis.Manager.{
  Connect, RedisConn, RedisDbManager, RedisServer, config_loop, on_conn, put_partition, run_command,
  servers_from, set_redis_db_config,
}
use bcm_server.Redis.Failover.{IsMoved, attempt, run_command-first, run_command-none}

abbrev server : ℕ → RedisServer
server p = record { ip = codes "10.0.0.1"; port = p; password = [] }

abbrev three : List RedisServer
three = server 1 ∷ server 2 ∷ server 3 ∷ []

abbrev at_second : RedisDbManager
at_second = record {
  partitions = (codes "p0", three) ∷ [];
  curr_partition_conn = (codes "p0", 1) ∷ [];
  consistent_hash = record { number_of_replicas = 1; server_circle = (5, codes "p0") ∷ [] };
}

abbrev answering : RedisConn
answering = record {
  redis_cmd_args3 = λ command key field value. true;
  hmset = λ key values. true;
  hget = λ key field. some (codes "v");
  hmget = λ key fields. none;
  hdel = λ key fields. false;
  zadd = λ key mem score. true;
  incr = λ key. some (1, 7);
  del = λ key. true;
  expire = λ key timeout. some 1;
  ttl = λ key. none;
  set = λ key value exptime. true;
  get = λ key. some key;
}

-- Only the first server can be reached.
abbrev first_only : Connect
first_only i s = if eqb s.port 1 then some answering else none

beyond : (k : ℕ) → suc (suc k) < 2 → ⊥
beyond k h = omega arith

refused : (k : ℕ) → k < 2 → attempt first_only (λ c. c.get (codes "k")) three 1 k ≡ none
unfolding on_conn
refused zero h = refl
refused (suc zero) h = refl
refused (suc (suc k)) h = elim (beyond k h) [ ]

no_ttl : (k : ℕ) → k < 3 → attempt first_only (λ c. c.ttl (codes "k")) three 1 k ≡ none
unfolding on_conn
no_ttl zero h = refl
no_ttl (suc zero) h = refl
no_ttl (suc (suc zero)) h = refl
no_ttl (suc (suc (suc k))) h = elim (beyond (suc k) (omega arith)) [ ]

run_command-first_example :
    ((run_command first_only (λ c. c.get (codes "k")) at_second (codes "p0")).1 ≡ some (codes "k"))
    × IsMoved at_second
        (codes "p0")
        0
        (run_command first_only (λ c. c.get (codes "k")) at_second (codes "p0")).0
unfolding on_conn lookup
run_command-first_example =
    run_command-first first_only (λ c. c.get (codes "k")) at_second (codes "p0") three 1 2
      (codes "k") refl (refl, refl) (omega arith) (omega arith) refused refl

run_command-none_example :
    ((run_command first_only (λ c. c.ttl (codes "k")) at_second (codes "p0")).1 ≡ none)
    × IsMoved at_second
        (codes "p0")
        1
        (run_command first_only (λ c. c.ttl (codes "k")) at_second (codes "p0")).0
unfolding lookup
run_command-none_example =
    run_command-none first_only (λ c. c.ttl (codes "k")) at_second (codes "p0") three 1 refl
      (refl, refl) (omega arith) no_ttl

abbrev three_config : Map Str RedisServer
three_config = (codes "0", server 1) ∷ (codes "1", server 2) ∷ (codes "2", server 3) ∷ []

configured :
    (set_redis_db_config
      (record at_second { partitions = []; curr_partition_conn = [] })
      ((codes "p0", three_config) ∷ [])).0.partitions
    ≡ (codes "p0", three) ∷ []
unfolding set_redis_db_config config_loop servers_from put_partition lookup insert decimal digits
configured = refl

abbrev set_up : RedisDbManager
set_up = (set_redis_db_config (no_partition 1) ((codes "p0", three_config) ∷ [])).0

set_up-Sound : Sound set_up
unfolding lookup
set_up-Sound =
    (operations-Sound (no_partition 1) first_only (λ c. c.get []) [] 1
      ((codes "p0", three_config) ∷ []) (refl, tt) (no_partition-Sound 1)).0

operations-Sound_example :
    Sound (set_redis_db_config (no_partition 2) ((codes "p1", three_config) ∷ [])).0
    × Sound (run_command first_only (λ c. c.get (codes "k")) set_up (codes "p0")).0
    × ((m' : RedisDbManager) × (update_redis_conn_period first_only set_up ≡ some m') × Sound m')
unfolding lookup
operations-Sound_example =
    operations-Sound set_up first_only (λ c. c.get (codes "k")) (codes "p0") 2
      ((codes "p1", three_config) ∷ []) (refl, tt) set_up-Sound

-- From the third server back to the first, which can be reached.
goes_back :
    update_redis_conn_period first_only
      (record at_second { curr_partition_conn = (codes "p0", 2) ∷ [] })
    ≡ some (record at_second { curr_partition_conn = (codes "p0", 0) ∷ [] })
unfolding update_redis_conn_period go_back_all go_back find_earlier takes_mark on_conn lookup insert
goes_back = refl
