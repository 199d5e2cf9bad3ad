-- ===== src/Cache/Tests.antt =====
-- A cache of ten bytes, in which the second value leaves no room for the first.
use bcm_server.Base.{[], arith, elem, emplace, insert, lookup, refl, true, ℕ, ◌≡◌, str_key, nat_key}
use bcm_server.Cache.Fifo.{FifoCache, set_cache}
use bcm_server.Cache.FifoSet.{Stored, set_cache-Inv, set_cache-Stored}
use bcm_server.Cache.FifoInv.{Inv, Once, total}
use bcm_server.Cache.FifoSet.{Stored, set_cache-Inv, set_cache-Stored}

abbrev bytes : ℕ → ℕ
bytes v = v

abbrev ten_bytes : FifoCache ℕ ℕ
ten_bytes = record { limit = 10; size = 0; caches = []; sequence = [] }

ten_bytes-Inv : Inv bytes ten_bytes
unfolding total lookup elem Once
ten_bytes-Inv = record { weighed = refl; within = omega arith; queued = λ j. refl; once = tt }

set_cache-Inv_example : Inv bytes (set_cache bytes 1 6 ten_bytes).1
set_cache-Inv_example = set_cache-Inv bytes 1 6 ten_bytes ten_bytes-Inv

abbrev six_taken : FifoCache ℕ ℕ
six_taken = (set_cache bytes 1 6 ten_bytes).1

six_taken-Inv : Inv bytes six_taken
six_taken-Inv = set_cache-Inv bytes 1 6 ten_bytes ten_bytes-Inv

set_cache-Stored_example :
    ((set_cache bytes 2 7 six_taken).0 ≡ true)
    × Stored bytes 2 7 six_taken (set_cache bytes 2 7 six_taken).1
unfolding set_cache lookup emplace insert
set_cache-Stored_example = set_cache-Stored bytes 2 7 six_taken six_taken-Inv refl (omega arith)
