-- ===== src/Dispatch/OrderRun.antt =====
-- src/dispatcher/dispatch_manager.cpp: over any events, the channel of an address gets what was sent to it.
use bcm_server.Dispatch.Channel.{on_multi_device_response}
use bcm_server.Base.{
  All, All-append, Bool, Bool-cases, List, Option, Option-cases, Str, [], add, ap, arith, eqb,
  eqb_iff, false, inl, inr, insert, is_empty, lookup, lookup-insert, map, none, not, refl, remove,
  some, subst, sym, true, ℕ, ◌&&◌, ◌++◌, ◌∙◌, ◌∷◌, ◌≡◌, str_key, nat_key,
}
use mathlib.Core.List.{append-nil, append_assoc}
use bcm_server.Dispatch.Address.{DispatchAddress, address_key}
use bcm_server.Dispatch.OrderParts.{step_part-Keeps, still}
use bcm_server.Dispatch.Manager.{
  Call, DispatchManager, Message, addressed, group_message, on_channel, register_listener,
  send_group_message, send_group_messages, unregister_listener,
}
use bcm_server.Dispatch.Events.{
  Event, World, group_sends, groups_send, kicking, part, redis_sends, redis_subscribes, registering,
  responds, run, step, subscribing, unregistering, unsubscribing, works,
}
use bcm_server.Dispatch.Order.{
  NotRedis, Serves, copies, is_open, offered, offered_all, offered_by, pending, puts, puts-append,
  texts, texts-addressed, texts-sent,
}
use bcm_server.Dispatch.OrderSteps.{Keeps, on_channel-Serves, same_channel}
use bcm_server.Dispatch.OrderOthers.{kick-Keeps, subscribe-Keeps, unchanged, unsubscribe-Keeps}
use bcm_server.Dispatch.OrderWork.{
  IsUntouched, queued-Keeps, received-Keeps, subscribed-Keeps, work-Keeps,
}

sent-NotRedis :
    (a : DispatchAddress) (to : List DispatchAddress) (s : Str)
    → All (NotRedis a) (map (λ b. group_message b s) to)
sent-NotRedis a [] s = tt
sent-NotRedis a (b ∷ to) s = (tt, sent-NotRedis a to s)

addressed-NotRedis :
    (a : DispatchAddress) (ms : List (Option (List DispatchAddress) × Option Str))
    → All (NotRedis a) (addressed ms)
unfolding addressed
addressed-NotRedis a [] = tt
addressed-NotRedis a ((some to, some s) ∷ rest) =
    All-append (NotRedis a) _ _ (sent-NotRedis a to s) (addressed-NotRedis a rest)
addressed-NotRedis a ((none, s) ∷ rest) = addressed-NotRedis a rest
addressed-NotRedis a ((some to, none) ∷ rest) = addressed-NotRedis a rest

copies-empty :
    (a : DispatchAddress) (to : List DispatchAddress) (s : Str)
    → is_empty to ≡ true
    → copies a to s ≡ []
unfolding copies
copies-empty a [] s e = refl
copies-empty a (b ∷ to) s e = cc

texts_of_empty : (a : DispatchAddress) (ms : List Message) → is_empty ms ≡ true → texts a ms ≡ []
unfolding texts
texts_of_empty a [] e = refl
texts_of_empty a (x ∷ ms) e = cc

offered_all-empty :
    (a : DispatchAddress) (ms : List (Option (List DispatchAddress) × Option Str))
    → is_empty (addressed ms) ≡ true
    → offered_all a ms ≡ []
offered_all-empty a ms e = sym (texts-addressed a ms) ∙ texts_of_empty a (addressed ms) e

module _ (a : DispatchAddress) (d : ℕ) (m : DispatchManager) (v : Serves a d m) where
  same_texts :
      (xs ys : List Str) (r : DispatchManager × List Call)
      → xs ≡ ys
      → Keeps a d m xs r
      → Keeps a d m ys r
  same_texts xs ys r e k = subst (λ t. Keeps a d m t r) e k

  group_sends-Keeps :
      (to : List DispatchAddress) (s : Str)
      → Keeps a d m (offered_by a (group_sends to s)) (send_group_message m to s, [])
  unfolding send_group_message offered_by puts
  group_sends-Keeps to s = elim (Bool-cases (is_empty s)) [
    | inl e ↦ elim (Bool-cases (is_empty to)) [
      | inl f ↦ rw (e, f) (unchanged a d m [] refl v)
      | inr f ↦ rw (e, f) (unchanged a d m [] refl v)
    ]
    | inr e ↦ elim (Bool-cases (is_empty to)) [
      | inl f ↦
          rw (e, f)
            (same_texts [] (copies a to s) (m, []) (sym (copies-empty a to s f))
              (unchanged a d m [] refl v))
      | inr f ↦
          rw (e, f)
            (same_texts (texts a (map (λ b. group_message b s) to)) (copies a to s)
              (record m { queue = m.queue ++ map (λ b. group_message b s) to }, [])
              (texts-sent a to s)
              (queued-Keeps a d m (map (λ b. group_message b s) to) (sent-NotRedis a to s) v))
    ]
  ]

  groups_send-Keeps :
      (ms : List (Option (List DispatchAddress) × Option Str))
      → Keeps a d m (offered_all a ms) (send_group_messages m ms, [])
  unfolding send_group_messages puts
  groups_send-Keeps ms = elim (Bool-cases (is_empty (addressed ms))) [
    | inl e ↦ rw e (
        same_texts [] (offered_all a ms) (m, []) (sym (offered_all-empty a ms e))
          (unchanged a d m [] refl v))
    | inr e ↦ rw e (
        same_texts (texts a (addressed ms)) (offered_all a ms)
          (record m { queue = m.queue ++ addressed ms }, []) (texts-addressed a ms)
          (queued-Keeps a d m (addressed ms) (addressed-NotRedis a ms) v))
  ]

  relisted : (ls : List ℕ) → Keeps a d m [] (record m { listeners = ls }, [])
  unfolding puts
  relisted ls = (
    record { has = v.has; sole = v.sole; opened = v.opened; plain = v.plain },
    sym (append-nil (texts a (pending m))),
  )

  -- A response that ends no session puts the channel back as it is.
  same_response :
      (w : World) (k : ℕ) (message : Str) (successful : Bool)
      → (not successful && w.protocol.ends_session message) ≡ false
      → Keeps a d m [] (step w m (responds k message successful))
  unfolding step on_channel puts on_multi_device_response
  same_response w k message successful n = elim (Option-cases (lookup k m.objects)) [
    | inl e ↦ rw (e, on_channel) (unchanged a d m [] refl v)
    | inr (c, e) ↦
        let same : is_open (lookup d (insert k c m.objects)) ≡ is_open (lookup d m.objects) =
          ap is_open (lookup-insert k d c m.objects) ∙ ground (arith, e, eqb_iff k d) in
        rw (e, on_channel)
          (rw n (
            still a d m (record m { objects = insert k c m.objects }) refl
              (same_channel a d m (insert k c m.objects) (same ∙ v.opened) v)))
  ]

  responds-Keeps :
      (w : World) (k : ℕ) (message : Str) (successful : Bool)
      → (eqb k d && (not successful && w.protocol.ends_session message)) ≡ false
      → Keeps a d m [] (step w m (responds k message successful))
  unfolding step
  responds-Keeps w k message successful n = elim (Bool-cases (eqb k d)) [
    | inl e ↦ same_response w k message successful (rw e at n)
    | inr e ↦ let r = on_channel-Serves a d m k _ e v in (r.0, rw (r.1, r.2, append-nil) refl)
  ]

  step-Keeps :
      (w : World) (e : Event) → IsUntouched w a d e → Keeps a d m (offered_by a e) (step w m e)
  unfolding step offered_by register_listener unregister_listener
  step-Keeps w (subscribing b by_id fresh) u =
      subscribe-Keeps a d w.serialize m b by_id fresh u.0 u.1 v
  step-Keeps w (unsubscribing b id) u = unsubscribe-Keeps a d m b id u v
  step-Keeps w (kicking b) u = kick-Keeps a d m b u v
  step-Keeps w (redis_subscribes s) u = subscribed-Keeps w a d m s v
  step-Keeps w (redis_sends s message) u = received-Keeps w a d m s message v u
  step-Keeps w (group_sends to s) u = group_sends-Keeps to s
  step-Keeps w (groups_send ms) u = groups_send-Keeps ms
  step-Keeps w (registering l) u = relisted (add l m.listeners)
  step-Keeps w (unregistering l) u = relisted (remove l m.listeners)
  step-Keeps w (responds k message successful) u = responds-Keeps w k message successful u
  step-Keeps w (part p) u = step_part-Keeps a d m w.serialize p u.0 u.1 v
  step-Keeps w works u = work-Keeps a d w.protocol m m.batch refl v

-- Let a channel serve an address alone and be available, with no message from redis for the address in
-- the queue. Over any events that neither connect nor disconnect the address or touch its channel, nor
-- bring messages of redis for it, nor a response of its client that refuses a message of several devices
-- which ends the session, with the worker and whole or interrupted calls for other addresses in any order
-- between them: the group messages that the channel has put to its connection, with those that still
-- wait, are those that waited at the start and then each one that was sent to the address, once for each
-- time that it was named, in the order in which they were sent; and the channel still serves the address.
pub puts-run :
    (w : World) (a : DispatchAddress) (d : ℕ) (m : DispatchManager) (es : List Event)
    → Serves a d m
    → All (IsUntouched w a d) es
    → Serves a d (run w m es).0
      × (puts d (run w m es).1 ++ texts a (pending (run w m es).0)
          ≡ texts a (pending m) ++ offered a es)
unfolding run offered puts
puts-run w a d m [] v u = (v, sym (append-nil (texts a (pending m))))
puts-run w a d m (e ∷ es) v u =
    let one = step-Keeps a d m v w e u.0 in
    let m1 = (step w m e).0 in
    let rest = puts-run w a d m1 es one.0 u.1 in
    (
      rest.0,
      ap (λ t. t ++ texts a (pending (run w m1 es).0))
            (puts-append d (step w m e).1 (run w m1 es).1)
          ∙ append_assoc (puts d (step w m e).1) (puts d (run w m1 es).1)
              (texts a (pending (run w m1 es).0))
          ∙ ap (λ t. puts d (step w m e).1 ++ t) rest.1
          ∙ sym (append_assoc (puts d (step w m e).1) (texts a (pending m1)) (offered a es))
          ∙ ap (λ t. t ++ offered a es) one.1
          ∙ append_assoc (texts a (pending m)) (offered_by a e) (offered a es),
    )
