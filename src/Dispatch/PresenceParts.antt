-- ===== src/Dispatch/PresenceParts.antt =====
-- src/dispatcher/dispatch_manager.cpp: parts of calls for other addresses.
use bcm_server.Base.{
  Bool, Bool-cases, List, Option, Option-cases, Str, [], ap, arith, elem, eqb, false, if◌then◌else◌,
  inl, inr, insert, is_some, lookup, lookup-erase, lookup-insert, map, none, refl, some, sym, true,
  ℕ, ◌==◌, ◌||◌, ◌∙◌, ◌∷◌, ◌≡◌, str_key, nat_key,
}
use bcm_server.Dispatch.Address.{DispatchAddress, address_key}
use bcm_server.Dispatch.Channel.{Action, Channel, on_dispatch_unsubscribed}
use bcm_server.Dispatch.Events.{
  Part, address_of, announces, asks_redis, enters_table, goes_offline, goes_online, leaves_table,
  step_part,
}
use bcm_server.Dispatch.Manager.{
  Call, DispatchManager, any_id, del_dispatcher, kick_old, on_channel, on_user_status_change,
  replace_dispatcher, subscribes, unsubscribes, user_offline, user_online,
}
use bcm_server.Dispatch.Presence.{
  asked_none, last, last-append, last-on_channel, notice, notice-acts, on_channel-dispatchers,
  on_channel-listeners, present, present-of, request, request-acts, taken, told_all,
}
use bcm_server.Dispatch.PresenceSteps.{
  Agrees, del_dispatcher-none, del_dispatcher-some, kick_old-dispatchers, last-kick_old,
}

module _ (l : ℕ) (a' : DispatchAddress) (m : DispatchManager) where
  -- A call that says nothing of the address.
  says_nothing : (c : Call) → notice l a' c ≡ none → request a' c ≡ none → Agrees l a' m (m, c ∷ [])
  unfolding last
  says_nothing c n r = (rw (n, last) refl, rw (r, last) refl)

  other_table :
      (a : DispatchAddress) (fresh : ℕ) (m' : DispatchManager)
      → (a == a') ≡ false
      → m'.dispatchers ≡ insert a fresh m.dispatchers
      → Agrees l a' m (m', [])
  unfolding last present
  other_table a fresh m' n e =
      let same : present a' m' ≡ present a' m =
        ap (λ t. is_some (lookup a' t)) e
        ∙ ap is_some (lookup-insert a a' fresh m.dispatchers ∙ rw n refl) in
      (sym same, sym same)

  other_gone :
      (a : DispatchAddress) (id : ℕ)
      → (a == a') ≡ false
      → Agrees l a' m ((del_dispatcher m a id).0, [])
  unfolding last present
  other_gone a id n = elim (Option-cases (lookup a m.dispatchers)) [
    | inl e ↦ rw (del_dispatcher-none m a id e) (refl, refl)
    | inr (d, e) ↦
        let same : present a' (taken m a) ≡ present a' m =
          ap is_some (lookup-erase a a' m.dispatchers ∙ rw n refl) in
        elim (Bool-cases (eqb id any_id || eqb id d)) [
          | inl x ↦ rw (del_dispatcher-some m a id d e) (rw x (sym same, sym same))
          | inr x ↦ rw (del_dispatcher-some m a id d e) (rw x (refl, refl))
        ]
  ]

  -- The listeners are told of another address.
  other_change :
      (a : DispatchAddress) (online b : Bool) (ls : List ℕ)
      → (a == a') ≡ false
      → last (notice l a') b (map (λ k. if online then user_online k a else user_offline k a) ls)
        ≡ b
  other_change a online b ls n = told_all l a a' online b ls ∙ ground (arith, n)

  pub step_part-Agrees :
      elem l m.listeners ≡ true
      → (serialize : Str → Str) (p : Part) → (address_of p == a') ≡ false
      → Agrees l a' m (step_part serialize m p)
  unfolding step_part last notice request on_user_status_change replace_dispatcher
  step_part-Agrees here serialize (enters_table a by_id fresh) n = other_table a fresh _ n refl
  step_part-Agrees here serialize (announces a fresh) n = (refl, refl)
  step_part-Agrees here serialize (asks_redis a true) n =
      says_nothing (subscribes a) refl (rw n refl)
  step_part-Agrees here serialize (asks_redis a false) n =
      says_nothing (unsubscribes a) refl (rw n refl)
  step_part-Agrees here serialize (goes_online a old) n =
      let b = present a' m in
      let change = on_user_status_change m a true in
      let kicked = (kick_old m old).1 in
      let same = present-of a' m (kick_old m old).0 (kick_old-dispatchers m old) in
      (
        last-append (notice l a') b change kicked
            ∙ last-kick_old m old (notice l a') _ (notice-acts l a')
            ∙ other_change a true b m.listeners n
            ∙ sym same,
        last-append (request a') b change kicked
            ∙ last-kick_old m old (request a') _ (request-acts a')
            ∙ asked_none l a a' true b m.listeners
            ∙ sym same,
      )
  step_part-Agrees here serialize (leaves_table a d) n = other_gone a d n
  step_part-Agrees here serialize (goes_offline a d kicks) n =
      let b = present a' m in
      let f : Channel → Channel × List Action = λ c. on_dispatch_unsubscribed c kicks in
      let r = on_channel m d f in
      let same = present-of a' m r.0 (on_channel-dispatchers m d f) in
      (
        last-append (notice l a') b r.1 (on_user_status_change r.0 a false)
            ∙ other_change a false _ r.0.listeners n
            ∙ last-on_channel m d f (notice l a') b (notice-acts l a')
            ∙ sym same,
        last-append (request a') b r.1 (on_user_status_change r.0 a false)
            ∙ asked_none l a a' false _ r.0.listeners
            ∙ last-on_channel m d f (request a') b (request-acts a')
            ∙ sym same,
      )

kick_old-listeners :
    (m : DispatchManager) (old : Option ℕ) → (kick_old m old).0.listeners ≡ m.listeners
unfolding kick_old
kick_old-listeners m none = refl
kick_old-listeners m (some d) = on_channel-listeners m d _

pub step_part-listeners :
    (serialize : Str → Str) (m : DispatchManager) (p : Part)
    → (step_part serialize m p).0.listeners ≡ m.listeners
unfolding step_part del_dispatcher replace_dispatcher
step_part-listeners serialize m (enters_table a by_id fresh) = refl
step_part-listeners serialize m (announces a fresh) = refl
step_part-listeners serialize m (asks_redis a on) = refl
step_part-listeners serialize m (goes_online a old) = kick_old-listeners m old
step_part-listeners serialize m (leaves_table a d) = ground arith
step_part-listeners serialize m (goes_offline a d kicks) = on_channel-listeners m d _
