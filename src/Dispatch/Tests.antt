-- ===== src/Dispatch/Tests.antt =====
-- An address that is written and read back.
use bcm_server.Base.{
  List, Str, [], arith, codes, elem, eqb, erase, false, if◌then◌else◌, insert, lookup, map, none,
  refl, some, true, ℕ, ◌++◌, ◌==◌, ◌∷◌, ◌≡◌, str_key, nat_key,
}
use bcm_server.Dispatch.Address.{
  DispatchAddress, Free, SplitsAtColon, deserialize, deserialize-get_serialized, get_serialized,
  address_key,
}
use bcm_server.Base.Decimal.{decimal}
use bcm_server.Dispatch.Channel.{
  Channel, disconnect, on_dispatch_group_message, on_multi_device_response, keepalive,
}
use bcm_server.Dispatch.Manager.{
  DispatchManager, acts, addressed, del_dispatcher, delete_badge, dispatch_message, get_dispatcher,
  kick_old, on_channel, on_user_status_change, publish, publish_online, replace_dispatcher,
  send_group_message, send_group_messages, subscribe, subscribes, take_batch, to_dispatcher,
  unsubscribe, user_online,
}
use bcm_server.Dispatch.Race.{interrupted, interrupted-disagrees}
use bcm_server.Dispatch.Events.{
  Event, World, enters_table, goes_online, group_sends, groups_send, leaves_table, part, responds,
  run, step, step_part, subscribing, unsubscribing, work, works,
}
use bcm_server.Dispatch.Presence.{last, notice, present, request}
use bcm_server.Dispatch.PresenceRun.{run-Agrees}
use bcm_server.Dispatch.Replace.{subscribe-replaces}
use bcm_server.Dispatch.OrderRun.{puts-run}
use bcm_server.Dispatch.Order.{Serves, offered, pending, puts, texts}

abbrev head_cons : ℕ → List Str → List Str
head_cons c [] = (c ∷ []) ∷ []
head_cons c (s ∷ ss) = (c ∷ s) ∷ ss

abbrev colons : Str → List Str
colons [] = [] ∷ []
colons (c ∷ s) = if eqb c b':' then [] ∷ colons s else head_cons c (colons s)

colons-whole : (d : Str) → Free b':' d → colons d ≡ d ∷ []
colons-whole [] h = refl
colons-whole (x ∷ d) h = rw (h.0, colons-whole d h.1) refl

colons-SplitsAtColon : SplitsAtColon colons
colons-SplitsAtColon [] d h k = rw (colons-whole d k) refl
colons-SplitsAtColon (x ∷ u) d h k = rw (h.0, colons-SplitsAtColon u d h.1 k) refl

abbrev phone : DispatchAddress
phone = record { uid = codes "alice"; deviceid = 12 }

deserialize-get_serialized_example : deserialize colons (get_serialized phone) ≡ some phone
deserialize-get_serialized_example =
    deserialize-get_serialized colons phone colons-SplitsAtColon
      (refl, (refl, (refl, (refl, (refl, tt))))) (omega arith)

abbrev tablet : DispatchAddress
tablet = record { uid = codes "bob"; deviceid = 2 }

-- Every message is parsed as one of KEEPALIVE.
abbrev world : World
world = record {
  protocol = record {
    master_id = 1;
    parse_message = λ s. some (keepalive, s);
    is_envelope = λ s. false;
    is_multi_device = λ s. false;
    is_friend = λ s. false;
    ends_session = λ s. true;
  };
  split = colons;
  serialize = λ s. s;
}

abbrev open_channel : Channel
open_channel = record { available = true; address = phone; by_request_id = false }

abbrev serving : DispatchManager
serving = record {
  dispatchers = (phone, 7) ∷ [];
  objects = (7, open_channel) ∷ [];
  queue = [];
  batch = [];
  listeners = 1 ∷ [];
}

abbrev traffic : List Event
traffic =
    group_sends (phone ∷ tablet ∷ []) (codes "one")
    ∷ works
    ∷ subscribing tablet false 8
    ∷ part (leaves_table tablet 8)
    ∷ works
    ∷ groups_send ((some (phone ∷ []), some (codes "two")) ∷ [])
    ∷ responds 7 (codes "devices") true
    ∷ works
    ∷ []

-- The phone comes and goes while a call for the tablet is under way.
abbrev comings : List Event
comings =
    subscribing phone false 9
    ∷ part (enters_table tablet false 8)
    ∷ unsubscribing phone 9
    ∷ part (goes_online tablet none)
    ∷ subscribing phone false 10
    ∷ []

run-Agrees_example :
    (last (notice 1 phone) (present phone serving) (run world serving comings).1
      ≡ present phone (run world serving comings).0)
    × (last (request phone) (present phone serving) (run world serving comings).1
        ≡ present phone (run world serving comings).0)
unfolding elem get_serialized
run-Agrees_example =
    run-Agrees world 1 phone serving comings refl (tt, (refl, (tt, (refl, (tt, tt)))))

subscribe-replaces_example :
    let r = subscribe (λ s. s) serving phone false 9 in
    (lookup tablet r.0.dispatchers
      ≡ (if phone == tablet then some 9 else lookup tablet serving.dispatchers))
    × (lookup 7 r.0.objects ≡ some (record open_channel { available = false }))
    × (r.1
        ≡ publish phone (decimal 9)
          ∷ delete_badge phone.uid
          ∷ publish_online phone (decimal 9)
          ∷ subscribes phone
          ∷ (map (λ l. user_online l phone) serving.listeners ++ acts 7 disconnect ∷ []))
    × (unsubscribe r.0 phone 7 ≡ (r.0, []))
unfolding lookup decimal get_serialized
subscribe-replaces_example =
    subscribe-replaces (λ s. s) serving phone tablet false 9 7 open_channel refl refl refl refl

only_phone : (b : DispatchAddress) → lookup b serving.dispatchers ≡ some 7 → (phone == b) ≡ true
unfolding lookup
only_phone b h = ground arith

serving-Serves : Serves phone 7 serving
unfolding lookup decimal get_serialized
serving-Serves = record { has = refl; sole = only_phone; opened = refl; plain = tt }

puts-run_example :
    Serves phone 7 (run world serving traffic).0
    × (puts 7 (run world serving traffic).1 ++ texts phone (pending (run world serving traffic).0)
        ≡ texts phone (pending serving) ++ offered phone traffic)
unfolding decimal get_serialized
puts-run_example =
    puts-run world phone 7 serving traffic serving-Serves
      (tt, (tt, ((refl, refl), ((refl, refl), (tt, (tt, (refl, (tt, tt))))))))

-- The worker has handled the first message, and the second waits.
first_put : puts 7 (run world serving traffic).1 ≡ codes "one" ∷ []
unfolding puts run step send_group_message send_group_messages work take_batch dispatch_message
    to_dispatcher on_dispatch_group_message subscribe insert lookup decimal get_serialized addressed
    on_user_status_change replace_dispatcher kick_old get_dispatcher on_channel step_part
    on_multi_device_response del_dispatcher erase
first_put = refl

interrupted-disagrees_example :
    (present phone (run world serving (interrupted phone 7 false 9)).0 ≡ true)
    × (last (notice 1 phone) true (run world serving (interrupted phone 7 false 9)).1 ≡ false)
    × (last (request phone) true (run world serving (interrupted phone 7 false 9)).1 ≡ false)
    × (lookup phone (step world serving (part (leaves_table phone 7))).0.dispatchers ≡ none)
unfolding lookup elem get_serialized decimal
interrupted-disagrees_example = interrupted-disagrees world 1 phone serving 7 9 false true refl refl
