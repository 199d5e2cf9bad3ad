-- ===== src/Dispatch/Channel.antt =====
-- src/dispatcher/dispatch_channel.cpp: whether a channel is available, and what it does with a message.
use bcm_server.Base.{
  Bool, List, Option, Str, [], eqb, false, if◌then◌else◌, is_empty, none, not, some, str_eq, true,
  ℕ, ◌&&◌, ◌∷◌, str_key, nat_key,
}
use bcm_server.Dispatch.Address.{DispatchAddress, address_key}
use bcm_server.Base.Decimal.{decimal}

-- `PubSubMessage::Type`, of the protocol.
pub data Kind : Type 0 where
  query_db deliver connected multi_device close keepalive check query_online friend notification
        unknown :
      Kind

-- What the generated code of the protocol gives: `Device::MASTER_ID`, parsers, of a message with its
-- content, and of an envelope, a message of several devices, a friend message, and whether the type of a
-- message of several devices is DeviceAuth, DeviceKickedByOther, DeviceKickedByMaster or MasterLogout.
pub record Protocol : Type 0 where
  pub master_id : ℕ
  pub parse_message : Str → Option (Kind × Str)
  pub is_envelope : Str → Bool
  pub is_multi_device : Str → Bool
  pub is_friend : Str → Bool
  pub ends_session : Str → Bool

-- What a channel asks of the database and of its connection.
pub data Action : Type 0 where
  send_stored_messages send_stored_friend_events disconnect : Action
  send_p2p_message send_multi_device_message send_friend_event put_group_message : Str → Action

-- `by_request_id` says that the connection's type is REQUESTID_AUTH.
pub record Channel : Type 0 where
  pub available : Bool
  pub address : DispatchAddress
  pub by_request_id : Bool

unfoldable pub on_dispatch_subscribed : Protocol → Channel → Channel × List Action
on_dispatch_subscribed p c =
    if c.available
    then (c, [])
    else (if c.by_request_id
        then (record c { available = true }, [])
        else (if eqb c.address.deviceid p.master_id
            then (
              record c { available = true },
              send_stored_messages ∷ send_stored_friend_events ∷ [],
            )
            else (record c { available = true }, send_stored_messages ∷ [])))

unfoldable pub on_dispatch_unsubscribed : Channel → Bool → Channel × List Action
on_dispatch_unsubscribed c kicking =
    (record c { available = false }, if kicking then disconnect ∷ [] else [])

unfoldable pub on_dispatch_group_message : Channel → Str → Channel × List Action
on_dispatch_group_message c message =
    (c, if c.available then put_group_message message ∷ [] else [])

-- The response of the client to a message of several devices, with success or not.
unfoldable pub on_multi_device_response : Protocol → Channel → Str → Bool → Channel × List Action
on_multi_device_response p c message successful =
    if not successful && p.ends_session message
    then (record c { available = false }, disconnect ∷ [])
    else (c, [])

-- The switch on the type of a message that has been parsed, for a channel that is available;
-- `identity` is its own.
unfoldable pub on_parsed : Protocol → Channel → ℕ → Kind → Str → Channel × List Action
unfolding on_dispatch_group_message
on_parsed p c identity query_db content = (c, send_stored_messages ∷ [])
on_parsed p c identity deliver content =
    (c, if p.is_envelope content then send_p2p_message content ∷ [] else [])
on_parsed p c identity connected content =
    if not (is_empty content) && not (str_eq content (decimal identity))
    then (record c { available = false }, disconnect ∷ [])
    else (c, [])
on_parsed p c identity multi_device content =
    (c, if p.is_multi_device content then send_multi_device_message content ∷ [] else [])
on_parsed p c identity close content = (c, [])
on_parsed p c identity keepalive content = (c, [])
on_parsed p c identity check content = (c, [])
on_parsed p c identity query_online content = (c, [])
on_parsed p c identity friend content =
    (c, if p.is_friend content then send_friend_event content ∷ [] else [])
on_parsed p c identity notification content = on_dispatch_group_message c content
on_parsed p c identity unknown content = (c, [])

unfoldable pub on_dispatch_redis_message : Protocol → Channel → ℕ → Str → Channel × List Action
unfolding on_parsed
on_dispatch_redis_message p c identity message =
    if c.available
    then elim (p.parse_message message) [
      | none ↦ (c, [])
      | some (kind, content) ↦ on_parsed p c identity kind content
    ]
    else (c, [])
