-- ===== src/Dispatch/Events.antt =====
-- src/dispatcher/dispatch_manager.cpp: what happens to the manager, one event at a time.
use bcm_server.Base.{
  Bool, List, Option, Str, [], eqb, false, none, some, ℕ, ◌++◌, ◌∷◌, str_key, nat_key,
}
use bcm_server.Dispatch.Address.{DispatchAddress, address_key}
use bcm_server.Dispatch.Channel.{Protocol, on_multi_device_response}
use bcm_server.Dispatch.Manager.{
  Call, DispatchManager, Message, announce, ask_redis, del_dispatcher, dispatch_message,
  enter_table, go_offline, go_online, kick, on_channel, on_message, on_subscribe, register_listener,
  send_group_message, send_group_messages, subscribe, take_batch, unregister_listener, unsubscribe,
}

-- A part of a call of subscribe, unsubscribe or kick, between which other threads go on; the manager has
-- no lock over a whole call. The identities are those that the call found in the table.
pub data Part : Type 0 where
  enters_table : DispatchAddress → Bool → ℕ → Part
  announces : DispatchAddress → ℕ → Part
  asks_redis : DispatchAddress → Bool → Part
  goes_online : DispatchAddress → Option ℕ → Part
  leaves_table : DispatchAddress → ℕ → Part
  goes_offline : DispatchAddress → ℕ → Bool → Part

-- The calls of its API, the callbacks of redis, `responds`, the response of a channel's client to a
-- message of several devices, and `works`, a step of the thread that runs `dispatchMessages`. A call of the API is one
-- event when nothing comes between its parts, and else each part is one.
pub data Event : Type 0 where
  subscribing : DispatchAddress → Bool → ℕ → Event
  unsubscribing : DispatchAddress → ℕ → Event
  kicking : DispatchAddress → Event
  redis_subscribes : Str → Event
  redis_sends : Str → Str → Event
  group_sends : List DispatchAddress → Str → Event
  groups_send : List (Option (List DispatchAddress) × Option Str) → Event
  registering unregistering : ℕ → Event
  responds : ℕ → Str → Bool → Event
  part : Part → Event
  works : Event

-- What the manager takes from others: the protocol, `boost::split` by ":", and the text of a CONNECTED
-- message.
pub record World : Type 0 where
  pub protocol : Protocol
  pub split : Str → List Str
  pub serialize : Str → Str

unfoldable pub work : Protocol → DispatchManager → List Message → DispatchManager × List Call
work p m [] = (take_batch m, [])
work p m (message ∷ rest) = dispatch_message p (record m { batch = rest }) message

unfoldable pub step_part : (Str → Str) → DispatchManager → Part → DispatchManager × List Call
step_part serialize m (enters_table a by_request_id fresh) =
    ((enter_table m a by_request_id fresh).0, [])
step_part serialize m (announces a fresh) = (m, announce serialize a fresh)
step_part serialize m (asks_redis a on) = (m, ask_redis a on ∷ [])
step_part serialize m (goes_online a old) = go_online m a old
step_part serialize m (leaves_table a d) = ((del_dispatcher m a d).0, [])
step_part serialize m (goes_offline a d kicks) = go_offline m a d kicks

-- The address that a part is about, and whether it touches the channel with an identity.
abbrev pub address_of : Part → DispatchAddress
address_of (enters_table a by_request_id fresh) = a
address_of (announces a fresh) = a
address_of (asks_redis a on) = a
address_of (goes_online a old) = a
address_of (leaves_table a d) = a
address_of (goes_offline a d kicks) = a

abbrev pub touches : ℕ → Part → Bool
touches d (enters_table a by_request_id fresh) = eqb fresh d
touches d (announces a fresh) = false
touches d (asks_redis a on) = false
touches d (goes_online a none) = false
touches d (goes_online a (some old)) = eqb old d
touches d (leaves_table a k) = false
touches d (goes_offline a k kicks) = eqb k d

module _ (w : World) where
  unfoldable pub step : DispatchManager → Event → DispatchManager × List Call
  step m (subscribing a by_request_id fresh) = subscribe w.serialize m a by_request_id fresh
  step m (unsubscribing a d) = unsubscribe m a d
  step m (kicking a) = kick m a
  step m (redis_subscribes s) = (on_subscribe w.split m s, [])
  step m (redis_sends s message) = (on_message w.split m s message, [])
  step m (group_sends to message) = (send_group_message m to message, [])
  step m (groups_send messages) = (send_group_messages m messages, [])
  step m (registering l) = (register_listener m l, [])
  step m (unregistering l) = (unregister_listener m l, [])
  step m (responds d message successful) =
      on_channel m d (λ c. on_multi_device_response w.protocol c message successful)
  step m (part p) = step_part w.serialize m p
  step m works = work w.protocol m m.batch

  unfoldable pub run : DispatchManager → List Event → DispatchManager × List Call
  run m [] = (m, [])
  run m (e ∷ es) = let (m1, out) = step m e in let (m2, outs) = run m1 es in (m2, out ++ outs)
