-- ===== src/Dispatch/Replace.antt =====
-- src/dispatcher/dispatch_manager.cpp: a new connection takes the place of the old one.
use bcm_server.Base.{
  ==_refl, Bool, Str, [], arith, eqb, false, if◌then◌else◌, insert, lookup, lookup-insert, map,
  refl, some, ℕ, ◌++◌, ◌==◌, ◌∙◌, ◌∷◌, ◌≡◌, str_key, nat_key,
}
use bcm_server.Base.Decimal.{decimal}
use bcm_server.Dispatch.Address.{DispatchAddress, address_key}
use bcm_server.Dispatch.Channel.{Channel, disconnect, on_dispatch_unsubscribed}
use bcm_server.Dispatch.Manager.{
  DispatchManager, acts, any_id, delete_badge, kick_old, on_channel, on_user_status_change, publish,
  publish_online, replace_dispatcher, subscribe, subscribes, unsubscribe, user_online,
}
use bcm_server.Dispatch.PresenceSteps.{del_dispatcher-some, kick_old-dispatchers}

module _ (serialize : Str → Str) (m : DispatchManager) (a : DispatchAddress) (by_id : Bool)
    (fresh : ℕ) where
  subscribe-dispatchers :
      (b : DispatchAddress)
      → lookup b (subscribe serialize m a by_id fresh).0.dispatchers
        ≡ (if a == b then some fresh else lookup b m.dispatchers)
  unfolding subscribe replace_dispatcher
  subscribe-dispatchers b =
      rw (kick_old-dispatchers _ (lookup a m.dispatchers)) (lookup-insert a b fresh m.dispatchers)

  stale_id :
      (id : ℕ)
      → eqb id any_id ≡ false
      → eqb id fresh ≡ false
      → unsubscribe (subscribe serialize m a by_id fresh).0 a id
        ≡ ((subscribe serialize m a by_id fresh).0, [])
  unfolding unsubscribe
  stale_id id x y =
      let there : lookup a (subscribe serialize m a by_id fresh).0.dispatchers ≡ some fresh =
        subscribe-dispatchers a ∙ rw (==_refl a) refl in
      rw
        (
          del_dispatcher-some (subscribe serialize m a by_id fresh).0 a id fresh there,
          x,
          y,
          unsubscribe,
        )
        refl

kick_old_lem :
    (m : DispatchManager) (old : ℕ) (c : Channel)
    → lookup old m.objects ≡ some c
    → kick_old m (some old) ≡ (
      record m { objects = insert old (record c { available = false }) m.objects },
      acts old disconnect ∷ [],
    )
unfolding kick_old on_channel on_dispatch_unsubscribed
kick_old_lem m old c e = rw (e, on_channel) refl

-- When a connection is made for an address that has one, with an identity of its own: the table holds the
-- new channel and is as it was for every other address; the old channel is no longer available and is
-- told to disconnect, after redis and the listeners have been told of the address; and when the old
-- connection then closes and unsubscribes with its identity, which is not UINT64_MAX, nothing happens.
pub subscribe-replaces :
    (serialize : Str → Str) (m : DispatchManager) (a b : DispatchAddress) (by_id : Bool)
    (fresh old : ℕ) (c : Channel)
    → lookup a m.dispatchers ≡ some old
    → lookup old m.objects ≡ some c
    → eqb fresh old ≡ false
    → eqb old any_id ≡ false
    → let r = subscribe serialize m a by_id fresh in
      (lookup b r.0.dispatchers ≡ (if a == b then some fresh else lookup b m.dispatchers))
      × (lookup old r.0.objects ≡ some (record c { available = false }))
      × (r.1
          ≡ publish a (serialize (decimal fresh))
            ∷ delete_badge a.uid
            ∷ publish_online a (serialize (decimal fresh))
            ∷ subscribes a
            ∷ (map (λ l. user_online l a) m.listeners ++ acts old disconnect ∷ []))
      × (unsubscribe r.0 a old ≡ (r.0, []))
unfolding subscribe replace_dispatcher on_user_status_change
subscribe-replaces serialize m a b by_id fresh old c e o n x =
    let made : Channel = record { available = false; address = a; by_request_id = by_id } in
    let m2 = record m {
      objects = insert fresh made m.objects;
      dispatchers = insert a fresh m.dispatchers;
    } in
    let o2 : lookup old m2.objects ≡ some c = lookup-insert fresh old made m.objects ∙ rw n o in
    let kicked = kick_old_lem m2 old c o2 in
    (
      subscribe-dispatchers serialize m a by_id fresh b,
      rw (e, kicked)
          (lookup-insert old old (record c { available = false }) m2.objects
            ∙ rw (==_refl old) refl),
      rw (e, kicked) refl,
      stale_id serialize m a by_id fresh old x (ground arith),
    )
