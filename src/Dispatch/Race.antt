-- ===== src/Dispatch/Race.antt =====
-- src/dispatcher/dispatch_manager.cpp: a call of unsubscribe that one of subscribe interrupts.
use bcm_server.Base.{
  ==_refl, Bool, List, [], ap, arith, elem, eqb, false, insert, is_some, lookup, lookup-erase,
  lookup-insert, none, or_else, refl, some, true, ℕ, ◌++◌, ◌||◌, ◌∙◌, ◌∷◌, ◌≡◌, str_key, nat_key,
}
use bcm_server.Dispatch.Address.{DispatchAddress, address_key}
use bcm_server.Dispatch.Channel.{Action, Channel, on_dispatch_unsubscribed}
use bcm_server.Dispatch.Manager.{
  DispatchManager, any_id, on_channel, on_user_status_change, replace_dispatcher, subscribe,
  unsubscribes,
}
use bcm_server.Dispatch.Events.{
  Event, World, asks_redis, goes_offline, leaves_table, part, run, step, step_part, subscribing,
}
use bcm_server.Dispatch.Presence.{
  asked_none, last, last-append, last-on_channel, notice, on_channel-dispatchers,
  on_channel-listeners, present, present-of, request, request-acts, told_all,
}
use bcm_server.Dispatch.PresenceSteps.{del_dispatcher-some, kick_old-dispatchers}
use bcm_server.Dispatch.PresenceParts.{step_part-listeners}
use bcm_server.Dispatch.PresenceRun.{step-listens}

-- The parts of `unsubscribe` that come after the channel `d` has left the table.
abbrev pub late_parts : DispatchAddress → ℕ → List Event
late_parts a d = part (asks_redis a false) ∷ part (goes_offline a d false) ∷ []

-- The whole call for the channel that the address has, with a subscription of the address in it.
abbrev pub interrupted : DispatchAddress → ℕ → Bool → ℕ → List Event
interrupted a d by_request_id fresh =
    part (leaves_table a d) ∷ subscribing a by_request_id fresh ∷ late_parts a d

module _ (w : World) (l : ℕ) (a : DispatchAddress) where
  late_lasts :
      (m : DispatchManager) (d : ℕ) (b : Bool)
      → elem l m.listeners ≡ true
      → (last (notice l a) b (run w m (late_parts a d)).1 ≡ false)
        × (last (request a) b (run w m (late_parts a d)).1 ≡ false)
        × (present a (run w m (late_parts a d)).0 ≡ present a m)
  unfolding run step step_part last notice request on_user_status_change
  late_lasts m d b here =
      let f : Channel → Channel × List Action = λ c. on_dispatch_unsubscribed c false in
      let r = on_channel m d f in
      let change = on_user_status_change r.0 a false in
      let listens : elem l r.0.listeners ≡ true = rw (on_channel-listeners m d f) here in
      (
        last-append (notice l a) b (r.1 ++ change) []
            ∙ last-append (notice l a) b r.1 change
            ∙ told_all l a a false _ r.0.listeners
            ∙ ground (arith, listens, ==_refl a),
        last-append (request a) (or_else (request a (unsubscribes a)) b) (r.1 ++ change) []
            ∙ last-append (request a) _ r.1 change
            ∙ asked_none l a a false _ r.0.listeners
            ∙ last-on_channel m d f (request a) _ (request-acts a)
            ∙ rw (==_refl a) refl,
        present-of a m r.0 (on_channel-dispatchers m d f),
      )

  subscribe-present :
      (m : DispatchManager) (by_request_id : Bool) (fresh : ℕ)
      → present a (subscribe w.serialize m a by_request_id fresh).0 ≡ true
  unfolding subscribe replace_dispatcher present
  subscribe-present m by_request_id fresh =
      let there : lookup a (insert a fresh m.dispatchers) ≡ some fresh =
        lookup-insert a a fresh m.dispatchers ∙ rw (==_refl a) refl in
      ap (λ t. is_some (lookup a t)) (kick_old-dispatchers _ (lookup a m.dispatchers))
      ∙ ap is_some there

  own_identity : (d : ℕ) → (eqb d any_id || eqb d d) ≡ true
  own_identity d = ground arith

  -- A call of unsubscribe for the channel of an address takes it out of the table, and before it goes on
  -- a call of subscribe for the same address begins and ends. Then the table has the new channel, and
  -- yet the last notice that a registered listener got is that the address is offline, and the last
  -- request to redis is to unsubscribe its channel, whatever they were before.
  pub interrupted-disagrees :
      (m : DispatchManager) (d fresh : ℕ) (by_request_id b : Bool)
      → elem l m.listeners ≡ true
      → lookup a m.dispatchers ≡ some d
      → (present a (run w m (interrupted a d by_request_id fresh)).0 ≡ true)
        × (last (notice l a) b (run w m (interrupted a d by_request_id fresh)).1 ≡ false)
        × (last (request a) b (run w m (interrupted a d by_request_id fresh)).1 ≡ false)
        × (lookup a (step w m (part (leaves_table a d))).0.dispatchers ≡ none)
  unfolding run step step_part
  interrupted-disagrees m d fresh by_request_id b here e =
      let m1 = (step_part w.serialize m (leaves_table a d)).0 in
      let r = subscribe w.serialize m1 a by_request_id fresh in
      let listens : elem l r.0.listeners ≡ true =
        step-listens w l a m1 (subscribing a by_request_id fresh)
          (rw (step_part-listeners w.serialize m (leaves_table a d)) here) tt in
      let late = late_lasts r.0 d in
      (
        (late b listens).2 ∙ subscribe-present m1 by_request_id fresh,
        last-append (notice l a) b r.1 (run w r.0 (late_parts a d)).1 ∙ (late _ listens).0,
        last-append (request a) b r.1 (run w r.0 (late_parts a d)).1 ∙ (late _ listens).1,
        rw (del_dispatcher-some m a d d e)
            (rw (own_identity d) (lookup-erase a a m.dispatchers ∙ rw (==_refl a) refl)),
      )
