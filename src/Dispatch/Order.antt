-- ===== src/Dispatch/Order.antt =====
-- src/dispatcher/dispatch_manager.cpp: group messages reach the channel of an address in their order.
use bcm_server.Base.{
  All, Bool, List, Option, Str, [], eqb, false, if◌then◌else◌, is_empty, lookup, map, none, refl,
  some, true, ℕ, ◌++◌, ◌==◌, ◌∙◌, ◌∷◌, ◌≡◌, str_key, nat_key,
}
use bcm_server.Dispatch.Address.{DispatchAddress, address_key}
use bcm_server.Dispatch.Channel.{
  Action, Channel, disconnect, put_group_message, send_friend_event, send_multi_device_message,
  send_p2p_message, send_stored_friend_events, send_stored_messages,
}
use bcm_server.Dispatch.Manager.{
  Call, DispatchManager, Message, acts, addressed, delete_badge, group_message, publish,
  publish_online, redis_connected, redis_disconnected, redis_message, redis_subscribed,
  redis_unsubscribed, subscribes, unsubscribes, user_offline, user_online,
}
use bcm_server.Dispatch.Events.{
  Event, group_sends, groups_send, kicking, part, redis_sends, redis_subscribes, registering,
  responds, subscribing, unregistering, unsubscribing, works,
}
use mathlib.Core.List.{append_assoc}

-- The group messages that a channel puts to its connection.
unfoldable pub put_text : Action → List Str
put_text (put_group_message s) = s ∷ []
put_text send_stored_messages = []
put_text send_stored_friend_events = []
put_text disconnect = []
put_text (send_p2p_message s) = []
put_text (send_multi_device_message s) = []
put_text (send_friend_event s) = []

unfoldable pub put_by : ℕ → Call → List Str
unfolding put_text
put_by d (acts k x) = if eqb k d then put_text x else []
put_by d (publish b s) = []
put_by d (publish_online b s) = []
put_by d (delete_badge u) = []
put_by d (subscribes b) = []
put_by d (unsubscribes b) = []
put_by d (user_online l b) = []
put_by d (user_offline l b) = []

unfoldable pub puts : ℕ → List Call → List Str
unfolding put_by
puts d [] = []
puts d (c ∷ cs) = put_by d c ++ puts d cs

-- The group messages for an address among those of the queue.
unfoldable pub text_for : DispatchAddress → Message → List Str
text_for a (group_message b s) = if b == a then s ∷ [] else []
text_for a redis_connected = []
text_for a redis_disconnected = []
text_for a (redis_subscribed b) = []
text_for a (redis_unsubscribed b) = []
text_for a (redis_message b s) = []

unfoldable pub texts : DispatchAddress → List Message → List Str
unfolding text_for
texts a [] = []
texts a (m ∷ ms) = text_for a m ++ texts a ms

-- What the callers send to an address: a copy each time that it is named.
unfoldable pub copies : DispatchAddress → List DispatchAddress → Str → List Str
copies a [] s = []
copies a (b ∷ to) s = (if b == a then s ∷ [] else []) ++ copies a to s

unfoldable pub offered_all :
    DispatchAddress → List (Option (List DispatchAddress) × Option Str) → List Str
unfolding copies
offered_all a [] = []
offered_all a ((some to, some s) ∷ rest) = copies a to s ++ offered_all a rest
offered_all a ((none, s) ∷ rest) = offered_all a rest
offered_all a ((some to, none) ∷ rest) = offered_all a rest

unfoldable pub offered_by : DispatchAddress → Event → List Str
unfolding offered_all
offered_by a (group_sends to s) = if is_empty s then [] else copies a to s
offered_by a (groups_send messages) = offered_all a messages
offered_by a (subscribing b by_id fresh) = []
offered_by a (unsubscribing b d) = []
offered_by a (kicking b) = []
offered_by a (redis_subscribes s) = []
offered_by a (redis_sends s message) = []
offered_by a (registering l) = []
offered_by a (unregistering l) = []
offered_by a (responds k message successful) = []
offered_by a (part p) = []
offered_by a works = []

unfoldable pub offered : DispatchAddress → List Event → List Str
unfolding offered_by
offered a [] = []
offered a (e ∷ es) = offered_by a e ++ offered a es

pub texts-append :
    (a : DispatchAddress) (xs ys : List Message) → texts a (xs ++ ys) ≡ texts a xs ++ texts a ys
unfolding texts
texts-append a [] ys = refl
texts-append a (x ∷ xs) ys = rw (texts-append a xs ys, append_assoc) refl

pub puts-append : (d : ℕ) (xs ys : List Call) → puts d (xs ++ ys) ≡ puts d xs ++ puts d ys
unfolding puts
puts-append d [] ys = refl
puts-append d (x ∷ xs) ys = rw (puts-append d xs ys, append_assoc) refl

pub texts-sent :
    (a : DispatchAddress) (to : List DispatchAddress) (s : Str)
    → texts a (map (λ b. group_message b s) to) ≡ copies a to s
unfolding texts copies
texts-sent a [] s = refl
texts-sent a (b ∷ to) s = rw (texts-sent a to s) refl

pub texts-addressed :
    (a : DispatchAddress) (ms : List (Option (List DispatchAddress) × Option Str))
    → texts a (addressed ms) ≡ offered_all a ms
unfolding texts addressed offered_all
texts-addressed a [] = refl
texts-addressed a ((some to, some s) ∷ rest) =
    texts-append a (map (λ b. group_message b s) to) (addressed rest)
    ∙ rw (texts-sent a to s, texts-addressed a rest) refl
texts-addressed a ((none, s) ∷ rest) = texts-addressed a rest
texts-addressed a ((some to, none) ∷ rest) = texts-addressed a rest

-- The messages that wait.
abbrev pub pending : DispatchManager → List Message
pending m = m.batch ++ m.queue

-- What others ask for is no message of this channel.
pub puts-acts_ne : (d k : ℕ) (xs : List Action) → eqb k d ≡ false → puts d (map (acts k) xs) ≡ []
unfolding puts
puts-acts_ne d k [] n = refl
puts-acts_ne d k (x ∷ xs) n = rw n (puts-acts_ne d k xs n)

pub puts-change :
    (d : ℕ) (a : DispatchAddress) (online : Bool) (ls : List ℕ)
    → puts d (map (λ l. if online then user_online l a else user_offline l a) ls) ≡ []
unfolding puts
puts-change d a online [] = refl
puts-change d a true (l ∷ ls) = puts-change d a true ls
puts-change d a false (l ∷ ls) = puts-change d a false ls

-- The channel `d` serves the address `a` alone, is available, and no message waits that came from redis
-- for `a`.
abbrev pub is_open : Option Channel → Bool
is_open none = false
is_open (some c) = c.available

abbrev pub NotRedis : DispatchAddress → Message → Type 0
NotRedis a (redis_message b s) = (a == b) ≡ false
NotRedis a (redis_unsubscribed b) = (a == b) ≡ false
NotRedis a (group_message b s) = Unit
NotRedis a redis_connected = Unit
NotRedis a redis_disconnected = Unit
NotRedis a (redis_subscribed b) = Unit

pub record Serves (a : DispatchAddress) (d : ℕ) (m : DispatchManager) : Type 0 where
  pub has : lookup a m.dispatchers ≡ some d
  pub sole : (b : DispatchAddress) → lookup b m.dispatchers ≡ some d → (a == b) ≡ true
  pub opened : is_open (lookup d m.objects) ≡ true
  pub plain : All (NotRedis a) (pending m)
