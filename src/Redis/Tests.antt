-- ===== src/Redis/Tests.antt =====
-- The partitions of redis at concrete inputs.
use bcm_server.Base.{
  List, [], add, add_all, codes, elem, erase, false, insert, is_some, keys, lookup, none, refl,
  remove, true, ◌∷◌, ◌≡◌, str_key, nat_key,
}
use bcm_server.Utils.Ring.{get_server_by_key}
use bcm_server.Utils.Fnv.{fnv_hash}
use bcm_server.Dispatch.Address.{DispatchAddress, address_key}
use bcm_server.Redis.Partition
use bcm_server.Redis.Online
use bcm_server.Redis.Online.{
  OnlineRedisManager, is_subscribed, no_connection, partition_by_hash_key, publish, subscribe,
  unsubscribe,
}
use bcm_server.Redis.PartitionInv.{Event, run, run_told, step, sub_up, subscribes, unsubscribes}
use bcm_server.Redis.Publish.{publish_to}

-- A channel before the connection is up, one after, and one that is given up.
abbrev comings : List Event
comings =
    subscribes (codes "a") 1
    ∷ sub_up 0 true
    ∷ subscribes (codes "b") 1
    ∷ unsubscribes (codes "a")
    ∷ []

abbrev told : Partition.Link
told = record { channels = codes "b" ∷ []; patterns = [] }

run_told_example :
    (elem (codes "b") told.channels
      ≡ Partition.is_subscribed (run no_connection comings) (codes "b"))
    × (elem (codes "b") told.patterns
        ≡ is_some (lookup (codes "b") (run no_connection comings).psub_chans))
unfolding run step Partition.subscribe Partition.unsubscribe Partition.on_sub_connect insert lookup
    erase add remove add_all keys Partition.tell_all
run_told_example = run_told no_connection comings 0 told (codes "b") refl refl

-- One partition, with one connection for publications.
abbrev online : OnlineRedisManager
online = record {
  partitions = (codes "p1", record no_connection { available_pubs = 0 ∷ [] }) ∷ [];
  consistent_hash = record { number_of_replicas = 2; server_circle = (9, codes "p1") ∷ [] };
}

abbrev phone : DispatchAddress
phone = record { uid = codes "alice"; deviceid = 1 }

-- An error of redis is not passed on, and the caller waits for ever.
publish_waits : publish_to online phone false Partition.other ≡ none
unfolding publish_to Online.publish partition_by_hash_key get_server_by_key fnv_hash lookup
    Partition.try_publish
publish_waits = refl
