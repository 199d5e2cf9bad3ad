-- ===== src/Dispatch/PresenceRun.antt =====
-- src/dispatcher/dispatch_manager.cpp: every event keeps the listeners, redis and the table in agreement.
use bcm_server.Base.{
  All, Bool-cases, List, Option, Option-cases, [], arith, elem, elem-add, elem-remove, eqb, false,
  inl, inr, lookup, none, refl, some, true, ℕ, ◌==◌, ◌||◌, ◌∙◌, ◌∷◌, ◌≡◌, str_key, nat_key,
}
use bcm_server.Dispatch.Address.{DispatchAddress, address_key}
use bcm_server.Dispatch.Channel.{Action, Channel, Protocol}
use bcm_server.Dispatch.PresenceParts.{step_part-Agrees, step_part-listeners}
use bcm_server.Dispatch.Manager.{
  DispatchManager, Message, any_id, del_dispatcher, dispatch_message, get_dispatcher, group_message,
  kick, kick_old, on_message, on_subscribe, redis_connected, redis_disconnected, redis_message,
  redis_subscribed, redis_unsubscribed, register_listener, replace_dispatcher, send_group_message,
  send_group_messages, subscribe, take_batch, to_dispatcher, unregister_listener, unsubscribe,
}
use bcm_server.Dispatch.Events.{
  Event, World, address_of, group_sends, groups_send, kicking, part, redis_sends, redis_subscribes,
  registering, responds, run, step, subscribing, unregistering, unsubscribing, work, works,
}
use bcm_server.Dispatch.PresenceSteps.{
  Agrees, del_dispatcher-none, del_dispatcher-some, kick-Agrees, on_channel-Agrees, quiet,
  received-Agrees, sent-Agrees, subscribe-Agrees, to_dispatcher-Agrees, unsubscribe-Agrees,
}
use bcm_server.Dispatch.Presence.{
  last, last-append, notice, on_channel-listeners, present, request, taken,
}

-- An event does not unregister the listener, and is no part of a call on the address that others interrupt.
abbrev pub IsKept : ℕ → DispatchAddress → Event → Type 0
IsKept l a' (subscribing a by_id fresh) = Unit
IsKept l a' (unsubscribing a d) = Unit
IsKept l a' (kicking a) = Unit
IsKept l a' (redis_subscribes s) = Unit
IsKept l a' (redis_sends s message) = Unit
IsKept l a' (group_sends to message) = Unit
IsKept l a' (groups_send messages) = Unit
IsKept l a' (registering k) = Unit
IsKept l a' (unregistering k) = eqb k l ≡ false
IsKept l a' (responds d message successful) = Unit
IsKept l a' (part p) = (address_of p == a') ≡ false
IsKept l a' works = Unit

module _ (l : ℕ) (a' : DispatchAddress) (m : DispatchManager)
    (here : elem l m.listeners ≡ true) where
  work-Agrees : (p : Protocol) (batch : List Message) → Agrees l a' m (work p m batch)
  unfolding work take_batch dispatch_message
  work-Agrees p [] = quiet l a' m _ refl
  work-Agrees p (redis_connected ∷ rest) = quiet l a' m _ refl
  work-Agrees p (redis_disconnected ∷ rest) = quiet l a' m _ refl
  work-Agrees p (redis_subscribed a ∷ rest) = to_dispatcher-Agrees l a' m here rest a _
  work-Agrees p (redis_unsubscribed a ∷ rest) = to_dispatcher-Agrees l a' m here rest a _
  work-Agrees p (redis_message a s ∷ rest) = to_dispatcher-Agrees l a' m here rest a _
  work-Agrees p (group_message a s ∷ rest) = to_dispatcher-Agrees l a' m here rest a _

  step-Agrees : (w : World) (e : Event) → IsKept l a' e → Agrees l a' m (step w m e)
  unfolding step register_listener unregister_listener
  step-Agrees w (subscribing a by_id fresh) k =
      subscribe-Agrees l a' m here w.serialize a by_id fresh
  step-Agrees w (unsubscribing a d) k = unsubscribe-Agrees l a' m here a d
  step-Agrees w (kicking a) k = kick-Agrees l a' m here a
  step-Agrees w (redis_subscribes s) k = (received-Agrees l a' m here w.split s s).0
  step-Agrees w (redis_sends s message) k = (received-Agrees l a' m here w.split s message).1
  step-Agrees w (group_sends to message) k = (sent-Agrees l a' m here to message []).0
  step-Agrees w (groups_send messages) k = (sent-Agrees l a' m here [] [] messages).1
  step-Agrees w (registering j) k = quiet l a' m _ refl
  step-Agrees w (unregistering j) k = quiet l a' m _ refl
  step-Agrees w (responds d message successful) k = on_channel-Agrees l a' m d _
  step-Agrees w (part p) k = step_part-Agrees l a' m here w.serialize p k
  step-Agrees w works k = work-Agrees w.protocol m.batch

-- What the tables of listeners become.
to_dispatcher-listeners :
    (m : DispatchManager) (a : DispatchAddress) (f : ℕ → Channel → Channel × List Action)
    → (to_dispatcher m a f).0.listeners ≡ m.listeners
unfolding to_dispatcher get_dispatcher
to_dispatcher-listeners m a f = elim (Option-cases (lookup a m.dispatchers)) [
  | inl e ↦ rw (e, to_dispatcher) refl
  | inr (d, e) ↦ rw (e, to_dispatcher) (on_channel-listeners m d (f d))
]

kick_old-listeners :
    (m : DispatchManager) (old : Option ℕ) → (kick_old m old).0.listeners ≡ m.listeners
unfolding kick_old
kick_old-listeners m none = refl
kick_old-listeners m (some d) = on_channel-listeners m d _

gone-listeners :
    (m : DispatchManager) (a : DispatchAddress) (id d : ℕ)
    → lookup a m.dispatchers ≡ some d
    → ((unsubscribe m a id).0.listeners ≡ m.listeners) × ((kick m a).0.listeners ≡ m.listeners)
unfolding unsubscribe kick
gone-listeners m a id d e =
    let del = del_dispatcher-some m a id d e in
    let found : del_dispatcher m a any_id ≡ (taken m a, some d) =
      del_dispatcher-some m a any_id d e in
    (
      elim (Bool-cases (eqb id any_id || eqb id d)) [
        | inl n ↦
            let found' : del_dispatcher m a id ≡ (taken m a, some d) = del ∙ rw n refl in
            rw (found', unsubscribe) (rw found' (on_channel-listeners (taken m a) d _))
        | inr n ↦ rw (del, n, unsubscribe) refl
      ],
      rw (found, kick) (rw found (on_channel-listeners (taken m a) d _)),
    )

absent-listeners :
    (m : DispatchManager) (a : DispatchAddress) (id : ℕ)
    → lookup a m.dispatchers ≡ none
    → ((unsubscribe m a id).0.listeners ≡ m.listeners) × ((kick m a).0.listeners ≡ m.listeners)
unfolding unsubscribe kick
absent-listeners m a id e = (
  rw (del_dispatcher-none m a id e, unsubscribe) refl,
  rw (del_dispatcher-none m a any_id e, kick) refl,
)

removal-listeners :
    (m : DispatchManager) (a : DispatchAddress) (id : ℕ)
    → ((unsubscribe m a id).0.listeners ≡ m.listeners) × ((kick m a).0.listeners ≡ m.listeners)
removal-listeners m a id = elim (Option-cases (lookup a m.dispatchers)) [
  | inl e ↦ absent-listeners m a id e
  | inr (d, e) ↦ gone-listeners m a id d e
]

work-listeners :
    (p : Protocol) (m : DispatchManager) (batch : List Message)
    → (work p m batch).0.listeners ≡ m.listeners
unfolding work take_batch dispatch_message
work-listeners p m [] = refl
work-listeners p m (redis_connected ∷ rest) = refl
work-listeners p m (redis_disconnected ∷ rest) = refl
work-listeners p m (redis_subscribed a ∷ rest) = to_dispatcher-listeners _ a _
work-listeners p m (redis_unsubscribed a ∷ rest) = to_dispatcher-listeners _ a _
work-listeners p m (redis_message a s ∷ rest) = to_dispatcher-listeners _ a _
work-listeners p m (group_message a s ∷ rest) = to_dispatcher-listeners _ a _

pub step-listens :
    (w : World) (l : ℕ) (a' : DispatchAddress) (m : DispatchManager) (e : Event)
    → elem l m.listeners ≡ true
    → IsKept l a' e
    → elem l (step w m e).0.listeners ≡ true
unfolding step register_listener unregister_listener subscribe replace_dispatcher on_subscribe
    on_message send_group_message send_group_messages
step-listens w l a' m (subscribing a by_id fresh) h k =
    rw (kick_old-listeners _ (lookup a m.dispatchers)) h
step-listens w l a' m (unsubscribing a d) h k = rw (removal-listeners m a d).0 h
step-listens w l a' m (kicking a) h k = rw (removal-listeners m a 0).1 h
step-listens w l a' m (redis_subscribes s) h k = ground arith
step-listens w l a' m (redis_sends s message) h k = ground arith
step-listens w l a' m (group_sends to message) h k = ground arith
step-listens w l a' m (groups_send messages) h k = ground arith
step-listens w l a' m (registering j) h k = elem-add j l m.listeners ∙ ground arith
step-listens w l a' m (unregistering j) h k = elem-remove j l m.listeners ∙ rw k h
step-listens w l a' m (responds d message successful) h k = rw (on_channel-listeners m d _) h
step-listens w l a' m (part p) h k = rw (step_part-listeners w.serialize m p) h
step-listens w l a' m works h k = rw (work-listeners w.protocol m m.batch) h

-- Over any events that do not unregister the listener, in any order, where nothing comes between the
-- parts of a call of subscribe, unsubscribe or kick for the address itself, while calls for other
-- addresses are interrupted at any of their parts: the last notice that the listener got on the address,
-- and the last request to redis for its channel, say that it is online exactly if the table has a
-- channel for it in the end. Where there was none, this is so of the table at the start.
pub run-Agrees :
    (w : World) (l : ℕ) (a : DispatchAddress) (m : DispatchManager) (es : List Event)
    → elem l m.listeners ≡ true
    → All (IsKept l a) es
    → (last (notice l a) (present a m) (run w m es).1 ≡ present a (run w m es).0)
      × (last (request a) (present a m) (run w m es).1 ≡ present a (run w m es).0)
unfolding run last
run-Agrees w l a m [] h k = (refl, refl)
run-Agrees w l a m (e ∷ es) h k =
    let one = step-Agrees l a m h w e k.0 in
    let m1 = (step w m e).0 in
    let rest = run-Agrees w l a m1 es (step-listens w l a m e h k.0) k.1 in
    (
      last-append (notice l a) (present a m) (step w m e).1 (run w m1 es).1 ∙ rw one.0 rest.0,
      last-append (request a) (present a m) (step w m e).1 (run w m1 es).1 ∙ rw one.1 rest.1,
    )
