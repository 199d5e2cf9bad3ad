-- ===== src/Redis/Publish.antt =====
-- src/dispatcher/dispatch_manager.cpp, src/redis/online_redis_manager.cpp: a publication that is waited for.
use bcm_server.Base.Int.{int32_of, ltb_ℤ, pos, ℤ}
use bcm_server.Base.{Bool, Option, false, none, some, true, str_key, nat_key}
use bcm_server.Dispatch.Address.{DispatchAddress, address_key}
use bcm_server.Redis.Partition.{Answer, Reply, answer, integer, other}
use bcm_server.Redis.Online.{OnlineRedisManager, publish}

-- The callback of `DispatchManager::publish`: the value that it gives to the promise, of 32 bits.
unfoldable pub promised : Answer → ℤ
promised (answer false reply) = pos 0
promised (answer true (integer n)) = int32_of n
promised (answer true other) = pos 0

-- What `publish` returns, where `none` is that nothing is put into the promise and it waits for ever.
unfoldable pub waited : Option Answer → Option Bool
unfolding promised
waited none = none
waited (some a) = some (ltb_ℤ (pos 0) (promised a))

-- `DispatchManager::publish`.
unfoldable pub publish_to : OnlineRedisManager → DispatchAddress → Bool → Reply → Option Bool
unfolding waited publish
publish_to m address status reply = waited (publish m address.uid status reply).0
