-- ===== src/Dispatch/OrderParts.antt =====
-- src/dispatcher/dispatch_manager.cpp: parts of calls for other addresses leave the channel of one alone.
use bcm_server.Base.{
  Bool-cases, List, Option, Option-cases, Str, [], ap, arith, eqb, false, inl, inr, insert, lookup,
  lookup-insert, none, refl, some, true, ℕ, ◌==◌, ◌||◌, ◌∙◌, ◌∷◌, ◌≡◌, str_key, nat_key,
}
use mathlib.Core.List.{append-nil}
use bcm_server.Dispatch.Address.{DispatchAddress, address_key}
use bcm_server.Dispatch.Channel.{Action, Channel, on_dispatch_unsubscribed}
use bcm_server.Dispatch.Events.{
  Part, address_of, announces, asks_redis, enters_table, goes_offline, goes_online, leaves_table,
  step_part, touches,
}
use bcm_server.Dispatch.Manager.{
  DispatchManager, announce, any_id, del_dispatcher, kick_old, on_channel, on_user_status_change,
  replace_dispatcher, subscribes, unsubscribes,
}
use bcm_server.Dispatch.Presence.{taken}
use bcm_server.Dispatch.PresenceSteps.{del_dispatcher-none, del_dispatcher-some}
use bcm_server.Dispatch.Order.{Serves, is_open, pending, puts, puts-append, puts-change}
use bcm_server.Dispatch.OrderSteps.{
  Keeps, erase-Serves, insert-Serves, on_channel-Serves, same_channel,
}
use bcm_server.Dispatch.OrderOthers.{kick_old-Keeps, unchanged}

module _ (a : DispatchAddress) (d : ℕ) (m : DispatchManager) where
  -- An operation that makes no call and leaves the queue alone.
  pub still :
      (m' : DispatchManager) → pending m' ≡ pending m → Serves a d m' → Keeps a d m [] (m', [])
  unfolding puts
  still m' e v = (v, rw (e, append-nil) refl)

  out-Keeps :
      (b : DispatchAddress) (id : ℕ)
      → (a == b) ≡ false
      → Serves a d m
      → Keeps a d m [] ((del_dispatcher m b id).0, [])
  out-Keeps b id n v = elim (Option-cases (lookup b m.dispatchers)) [
    | inl e ↦ rw (del_dispatcher-none m b id e) (still m refl v)
    | inr (k, e) ↦ elim (Bool-cases (eqb id any_id || eqb id k)) [
      | inl x ↦
          rw (del_dispatcher-some m b id k e)
            (rw x (still (taken m b) refl (erase-Serves a d m b n v)))
      | inr x ↦ rw (del_dispatcher-some m b id k e) (rw x (still m refl v))
    ]
  ]

  old-other :
      (b : DispatchAddress) (old : Option ℕ)
      → touches d (goes_online b old) ≡ false
      → (k : ℕ) → old ≡ some k
      → eqb k d ≡ false
  old-other b none t k e = cc
  old-other b (some o) t k e = ground (arith, t, e)

  pub step_part-Keeps :
      (serialize : Str → Str) (p : Part)
      → (a == address_of p) ≡ false
      → touches d p ≡ false
      → Serves a d m
      → Keeps a d m [] (step_part serialize m p)
  unfolding step_part puts on_user_status_change replace_dispatcher
  step_part-Keeps serialize (enters_table b by_id fresh) n t v =
      let made : Channel = record { available = false; address = b; by_request_id = by_id } in
      let m1 = record m { objects = insert fresh made m.objects } in
      let v1 =
        same_channel a d m (insert fresh made m.objects)
          (ap is_open {y = lookup d m.objects} (lookup-insert fresh d made m.objects ∙ rw t refl)
            ∙ v.opened)
          v in
      still _ refl (insert-Serves a d m1 b fresh n t v1)
  step_part-Keeps serialize (announces b fresh) n t v =
      unchanged a d m (announce serialize b fresh) refl v
  step_part-Keeps serialize (asks_redis b true) n t v = unchanged a d m (subscribes b ∷ []) refl v
  step_part-Keeps serialize (asks_redis b false) n t v =
      unchanged a d m (unsubscribes b ∷ []) refl v
  step_part-Keeps serialize (goes_online b old) n t v =
      let u = kick_old-Keeps a d m old (old-other b old t) v in
      (
        u.0,
        rw
            (
              puts-append d (on_user_status_change m b true) (kick_old m old).1,
              u.1,
              u.2,
              puts-change d b true m.listeners,
              append-nil,
            )
            refl,
      )
  step_part-Keeps serialize (leaves_table b id) n t v = out-Keeps b id n v
  step_part-Keeps serialize (goes_offline b k kicks) n t v =
      let f : Channel → Channel × List Action = λ c. on_dispatch_unsubscribed c kicks in
      let r = on_channel m k f in
      let u = on_channel-Serves a d m k f t v in
      (
        u.0,
        rw
            (
              puts-append d r.1 (on_user_status_change r.0 b false),
              u.1,
              u.2,
              puts-change d b false r.0.listeners,
              append-nil,
            )
            refl,
      )
