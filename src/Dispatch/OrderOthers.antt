-- ===== src/Dispatch/OrderOthers.antt =====
-- src/dispatcher/dispatch_manager.cpp: connections of other addresses come and go.
use bcm_server.Base.{
  Bool, Bool-cases, List, Option, Option-cases, Str, [], ap, eqb, false, inl, inr, insert, lookup,
  lookup-insert, none, refl, some, true, ℕ, ◌==◌, ◌||◌, ◌∙◌, ◌∷◌, ◌≡◌, str_key, nat_key,
}
use mathlib.Core.List.{append-nil}
use bcm_server.Dispatch.Address.{DispatchAddress, address_key}
use bcm_server.Dispatch.Channel.{Channel, on_dispatch_unsubscribed}
use bcm_server.Dispatch.Manager.{
  Call, DispatchManager, any_id, del_dispatcher, kick, kick_old, on_user_status_change,
  replace_dispatcher, subscribe, unsubscribe, unsubscribes,
}
use bcm_server.Dispatch.Presence.{taken}
use bcm_server.Dispatch.PresenceSteps.{del_dispatcher-none, del_dispatcher-some}
use bcm_server.Dispatch.Order.{Serves, is_open, pending, puts, puts-append, puts-change}
use bcm_server.Dispatch.OrderSteps.{
  Keeps, dismissed-Keeps, insert-Serves, on_channel-Serves, other_channel, same_channel,
}

module _ (a : DispatchAddress) (d : ℕ) where
  pub unchanged :
      (m : DispatchManager) (cs : List Call)
      → puts d cs ≡ []
      → Serves a d m
      → Keeps a d m [] (m, cs)
  unchanged m cs e v = (v, rw (e, append-nil) refl)

  pub unsubscribe-Keeps :
      (m : DispatchManager) (b : DispatchAddress) (id : ℕ)
      → (a == b) ≡ false
      → Serves a d m
      → Keeps a d m [] (unsubscribe m b id)
  unfolding unsubscribe puts
  unsubscribe-Keeps m b id n v = elim (Option-cases (lookup b m.dispatchers)) [
    | inl e ↦ rw (del_dispatcher-none m b id e, unsubscribe) (unchanged m [] refl v)
    | inr (k, e) ↦
        let del = del_dispatcher-some m b id k e in
        elim (Bool-cases (eqb id any_id || eqb id k)) [
          | inl x ↦
              let found : del_dispatcher m b id ≡ (taken m b, some k) = del ∙ rw x refl in
              rw (found, unsubscribe)
                (rw found (dismissed-Keeps a d m b k (λ c. on_dispatch_unsubscribed c false) n e v))
          | inr x ↦ rw (del, x, unsubscribe) (unchanged m [] refl v)
        ]
  ]

  pub kick-Keeps :
      (m : DispatchManager) (b : DispatchAddress)
      → (a == b) ≡ false
      → Serves a d m
      → Keeps a d m [] (kick m b)
  unfolding kick puts
  kick-Keeps m b n v = elim (Option-cases (lookup b m.dispatchers)) [
    | inl e ↦ rw (del_dispatcher-none m b any_id e, kick) (unchanged m (unsubscribes b ∷ []) refl v)
    | inr (k, e) ↦
        let found : del_dispatcher m b any_id ≡ (taken m b, some k) =
          del_dispatcher-some m b any_id k e in
        rw (found, kick)
          (rw found (dismissed-Keeps a d m b k (λ c. on_dispatch_unsubscribed c true) n e v))
  ]

  pub kick_old-Keeps :
      (m : DispatchManager) (old : Option ℕ)
      → ((k : ℕ) → old ≡ some k → eqb k d ≡ false)
      → Serves a d m
      → Serves a d (kick_old m old).0
        × (puts d (kick_old m old).1 ≡ [])
        × (pending (kick_old m old).0 ≡ pending m)
  unfolding kick_old puts
  kick_old-Keeps m none h v = (v, refl, refl)
  kick_old-Keeps m (some k) h v = on_channel-Serves a d m k _ (h k refl) v

  pub subscribe-Keeps :
      (serialize : Str → Str) (m : DispatchManager) (b : DispatchAddress) (by_id : Bool) (fresh : ℕ)
      → (a == b) ≡ false
      → eqb fresh d ≡ false
      → Serves a d m
      → Keeps a d m [] (subscribe serialize m b by_id fresh)
  unfolding subscribe replace_dispatcher puts on_user_status_change
  subscribe-Keeps serialize m b by_id fresh n o v =
      let made : Channel = record { available = false; address = b; by_request_id = by_id } in
      let v1 =
        same_channel a d m (insert fresh made m.objects)
          (ap is_open {y = lookup d m.objects} (lookup-insert fresh d made m.objects ∙ rw o refl)
            ∙ v.opened)
          v in
      let m1 = record m { objects = insert fresh made m.objects } in
      let m2 = record m1 { dispatchers = insert b fresh m.dispatchers } in
      let old = lookup b m.dispatchers in
      let u =
        kick_old-Keeps m2 old (λ k e. other_channel a d m b k n e v)
          (insert-Serves a d m1 b fresh n o v1) in
      (
        u.0,
        rw
            (
              puts-append d (on_user_status_change m2 b true) (kick_old m2 old).1,
              u.1,
              u.2,
              puts-change d b true m.listeners,
              append-nil,
            )
            refl,
      )
