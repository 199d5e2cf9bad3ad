-- ===== src/Dispatch/Manager.antt =====
-- src/dispatcher/dispatch_manager.{h,cpp}: the channels of the addresses, and the queue of messages.
-- A function is a call that nothing interrupts, or a part of one, between which other calls can come; a
-- message that the worker takes from its batch is a step of its own. Channels are told apart by their identities, as in `getIdentity`.
use bcm_server.Base.{
  Bool, List, Map, Option, Str, [], add, eqb, erase, false, if◌then◌else◌, insert, is_empty, length,
  lookup, map, none, not, remove, some, true, ℕ, ◌&&◌, ◌++◌, ◌-◌, ◌^◌, ◌||◌, ◌∷◌, str_key, nat_key,
}
use bcm_server.Dispatch.Address.{DispatchAddress, deserialize, address_key}
use bcm_server.Base.Decimal.{decimal}
use bcm_server.Dispatch.Channel.{
  Action, Channel, Protocol, on_dispatch_group_message, on_dispatch_redis_message,
  on_dispatch_subscribed, on_dispatch_unsubscribed,
}

pub data Message : Type 0 where
  redis_connected redis_disconnected : Message
  redis_subscribed redis_unsubscribed : DispatchAddress → Message
  redis_message group_message : DispatchAddress → Str → Message

-- `batch` is `localMessageQueue` with the messages that are not handled yet, and `objects` the channels
-- by identity, also those that the manager no longer has: their connections hold them.
pub record DispatchManager : Type 0 where
  pub dispatchers : Map DispatchAddress ℕ
  pub objects : Map ℕ Channel
  pub queue : List Message
  pub batch : List Message
  pub listeners : List ℕ

-- Calls that leave the manager: redis, the listeners, and what a channel asks for.
pub data Call : Type 0 where
  publish publish_online : DispatchAddress → Str → Call
  delete_badge : Str → Call
  subscribes unsubscribes : DispatchAddress → Call
  user_online user_offline : ℕ → DispatchAddress → Call
  acts : ℕ → Action → Call

-- `UINT64_MAX`, the argument that matches every identity.
abbrev pub any_id : ℕ
any_id = 2 ^ 64 - 1

unfoldable pub replace_dispatcher :
    DispatchManager → DispatchAddress → ℕ → DispatchManager × Option ℕ
replace_dispatcher m address d =
    (record m { dispatchers = insert address d m.dispatchers }, lookup address m.dispatchers)

unfoldable pub del_dispatcher : DispatchManager → DispatchAddress → ℕ → DispatchManager × Option ℕ
del_dispatcher m address dispatcher_id = elim (lookup address m.dispatchers) [
  | none ↦ (m, none)
  | some d ↦
      if not (eqb dispatcher_id any_id) && not (eqb dispatcher_id d)
      then (m, none)
      else (record m { dispatchers = erase address m.dispatchers }, some d)
]

unfoldable pub get_dispatcher : DispatchManager → DispatchAddress → Option ℕ
get_dispatcher m address = lookup address m.dispatchers

unfoldable pub get_dispatch_count : DispatchManager → ℕ
get_dispatch_count m = length m.dispatchers

unfoldable pub on_user_status_change : DispatchManager → DispatchAddress → Bool → List Call
on_user_status_change m address online =
    map (λ l. if online then user_online l address else user_offline l address) m.listeners

-- An operation of the channel with an identity.
unfoldable pub on_channel :
    DispatchManager → ℕ → (Channel → Channel × List Action) → DispatchManager × List Call
on_channel m d f = elim (lookup d m.objects) [
  | none ↦ (m, [])
  | some c ↦ (record m { objects = insert d (f c).0 m.objects }, map (acts d) (f c).1)
]

-- The old channel of an address, if there is one, is kicked.
unfoldable pub kick_old : DispatchManager → Option ℕ → DispatchManager × List Call
unfolding on_channel
kick_old m none = (m, [])
kick_old m (some d) = on_channel m d (λ c. on_dispatch_unsubscribed c true)

-- The parts of `subscribe`: a channel with the identity `fresh` takes its place in the table, under the
-- lock; it is announced, where `serialize` makes the CONNECTED message with a content; redis is asked;
-- the listeners hear of it, and the old channel is kicked.
abbrev pub enter_table : DispatchManager → DispatchAddress → Bool → ℕ → DispatchManager × Option ℕ
enter_table m address by_request_id fresh =
    let made : Channel = record {
      available = false;
      address = address;
      by_request_id = by_request_id;
    } in
    replace_dispatcher (record m { objects = insert fresh made m.objects }) address fresh

abbrev pub announce : (Str → Str) → DispatchAddress → ℕ → List Call
announce serialize address fresh =
    let notify = serialize (decimal fresh) in
    publish address notify ∷ delete_badge address.uid ∷ publish_online address notify ∷ []

abbrev pub ask_redis : DispatchAddress → Bool → Call
ask_redis address on = if on then subscribes address else unsubscribes address

abbrev pub go_online : DispatchManager → DispatchAddress → Option ℕ → DispatchManager × List Call
go_online m address old =
    let (m1, kicked) = kick_old m old in (m1, on_user_status_change m address true ++ kicked)

unfoldable pub subscribe :
    (Str → Str) → DispatchManager → DispatchAddress → Bool → ℕ → DispatchManager × List Call
unfolding replace_dispatcher kick_old
subscribe serialize m address by_request_id fresh =
    let (m1, old) = enter_table m address by_request_id fresh in
    let (m2, calls) = go_online m1 address old in
    (m2, announce serialize address fresh ++ ask_redis address true ∷ calls)

-- What `unsubscribe` and `kick` do with a channel that has been taken out of the table.
abbrev pub go_offline : DispatchManager → DispatchAddress → ℕ → Bool → DispatchManager × List Call
go_offline m address d kicking =
    let (m1, calls) = on_channel m d (λ c. on_dispatch_unsubscribed c kicking) in
    (m1, calls ++ on_user_status_change m1 address false)

unfoldable pub unsubscribe : DispatchManager → DispatchAddress → ℕ → DispatchManager × List Call
unfolding del_dispatcher
unsubscribe m address dispatcher_id =
    let (m1, gone) = del_dispatcher m address dispatcher_id in
    elim gone [
      | none ↦ (m, [])
      | some d ↦
          let (m2, calls) = go_offline m1 address d false in (m2, ask_redis address false ∷ calls)
    ]

unfoldable pub kick : DispatchManager → DispatchAddress → DispatchManager × List Call
unfolding del_dispatcher
kick m address =
    let (m1, gone) = del_dispatcher m address any_id in
    elim gone [
      | none ↦ (m, ask_redis address false ∷ [])
      | some d ↦
          let (m2, calls) = go_offline m1 address d true in (m2, ask_redis address false ∷ calls)
    ]

unfoldable pub enqueue_message : DispatchManager → Message → DispatchManager
enqueue_message m message = record m { queue = m.queue ++ message ∷ [] }

unfoldable pub enqueue_messages : DispatchManager → List Message → DispatchManager
enqueue_messages m messages = record m { queue = m.queue ++ messages }

unfoldable pub on_subscribe : (Str → List Str) → DispatchManager → Str → DispatchManager
unfolding enqueue_message
on_subscribe split m serialized =
    if is_empty serialized then m else elim (deserialize split serialized) [
      | none ↦ m
      | some address ↦ enqueue_message m (redis_subscribed address)
    ]

unfoldable pub on_message : (Str → List Str) → DispatchManager → Str → Str → DispatchManager
unfolding enqueue_message
on_message split m serialized message =
    if is_empty serialized || is_empty message then m else elim (deserialize split serialized) [
      | none ↦ m
      | some address ↦ enqueue_message m (redis_message address message)
    ]

unfoldable pub send_group_message : DispatchManager → List DispatchAddress → Str → DispatchManager
unfolding enqueue_messages
send_group_message m destinations message =
    if is_empty destinations || is_empty message
    then m
    else enqueue_messages m (map (λ a. group_message a message) destinations)

-- `sendGroupMessage` of pairs, in which a null pointer is `none`.
unfoldable pub addressed : List (Option (List DispatchAddress) × Option Str) → List Message
addressed [] = []
addressed ((some destinations, some message) ∷ rest) =
    map (λ a. group_message a message) destinations ++ addressed rest
addressed ((none, message) ∷ rest) = addressed rest
addressed ((some destinations, none) ∷ rest) = addressed rest

unfoldable pub send_group_messages :
    DispatchManager → List (Option (List DispatchAddress) × Option Str) → DispatchManager
unfolding enqueue_messages addressed
send_group_messages m messages =
    if is_empty (addressed messages) then m else enqueue_messages m (addressed messages)

-- The operation of the channel that the address has now, if it has one.
unfoldable pub to_dispatcher :
    DispatchManager
    → DispatchAddress
    → (ℕ → Channel → Channel × List Action)
    → DispatchManager × List Call
unfolding get_dispatcher on_channel
to_dispatcher m address f = elim (get_dispatcher m address) [
  | none ↦ (m, [])
  | some d ↦ on_channel m d (f d)
]

-- The switch of `dispatchMessages`.
unfoldable pub dispatch_message : Protocol → DispatchManager → Message → DispatchManager × List Call
unfolding to_dispatcher
dispatch_message p m redis_connected = (m, [])
dispatch_message p m redis_disconnected = (m, [])
dispatch_message p m (redis_subscribed address) =
    to_dispatcher m address (λ d c. on_dispatch_subscribed p c)
dispatch_message p m (redis_unsubscribed address) =
    to_dispatcher m address (λ d c. on_dispatch_unsubscribed c false)
dispatch_message p m (redis_message address content) =
    to_dispatcher m address (λ d c. on_dispatch_redis_message p c d content)
dispatch_message p m (group_message address content) =
    to_dispatcher m address (λ d c. on_dispatch_group_message c content)

-- The worker: it takes the whole queue when its batch is empty, and else handles a message.
unfoldable pub take_batch : DispatchManager → DispatchManager
take_batch m = record m { batch = m.queue; queue = [] }

unfoldable pub register_listener : DispatchManager → ℕ → DispatchManager
register_listener m l = record m { listeners = add l m.listeners }

unfoldable pub unregister_listener : DispatchManager → ℕ → DispatchManager
unregister_listener m l = record m { listeners = remove l m.listeners }
