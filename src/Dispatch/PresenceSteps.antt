-- ===== src/Dispatch/PresenceSteps.antt =====
-- src/dispatcher/dispatch_manager.cpp: its operations keep the listeners, redis and the table in agreement.
use bcm_server.Base.{
  Bool, Bool-cases, List, Option, Option-cases, Str, [], ap, arith, elem, eqb, false, if◌then◌else◌,
  inl, inr, insert, is_some, lookup, lookup-insert, none, or_else, refl, some, subst, sym, true, ℕ,
  ◌==◌, ◌||◌, ◌∙◌, ◌∷◌, ◌≡◌, str_key, nat_key,
}
use bcm_server.Dispatch.Address.{DispatchAddress, address_key, address_key}
use bcm_server.Dispatch.Channel.{Action, Channel, on_dispatch_unsubscribed}
use bcm_server.Dispatch.Manager.{
  Call, DispatchManager, Message, acts, any_id, del_dispatcher, get_dispatcher, kick, kick_old,
  on_channel, on_message, on_subscribe, on_user_status_change, replace_dispatcher,
  send_group_message, send_group_messages, subscribe, to_dispatcher, unsubscribe, unsubscribes,
}
use bcm_server.Dispatch.Presence.{
  Asked, Told, asked_none, dismissed-Asked, dismissed-Told, last, last-append, last-on_channel,
  notice, notice-acts, on_channel-dispatchers, present, present-of, request, request-acts, taken,
  told_all,
}

-- Both at once, for a listener that is registered.
abbrev pub Agrees : ℕ → DispatchAddress → DispatchManager → DispatchManager × List Call → Type 0
Agrees l a m r = Told l a m r × Asked a m r

-- An operation that makes no call and leaves the table alone.
pub quiet :
    (l : ℕ) (a : DispatchAddress) (m m' : DispatchManager)
    → m'.dispatchers ≡ m.dispatchers
    → Agrees l a m (m', [])
unfolding last
quiet l a m m' e = (sym (present-of a m m' e), sym (present-of a m m' e))

-- An operation of a channel.
pub on_channel-Agrees :
    (l : ℕ) (a : DispatchAddress) (m : DispatchManager) (d : ℕ)
    (f : Channel → Channel × List Action)
    → Agrees l a m (on_channel m d f)
on_channel-Agrees l a m d f =
    let same = present-of a m (on_channel m d f).0 (on_channel-dispatchers m d f) in
    (
      last-on_channel m d f (notice l a) (present a m) (notice-acts l a) ∙ sym same,
      last-on_channel m d f (request a) (present a m) (request-acts a) ∙ sym same,
    )

pub del_dispatcher-none :
    (m : DispatchManager) (a : DispatchAddress) (id : ℕ)
    → lookup a m.dispatchers ≡ none
    → del_dispatcher m a id ≡ (m, none)
unfolding del_dispatcher
del_dispatcher-none m a id e = rw (e, del_dispatcher) refl

-- A channel is taken out by its identity, or by the argument that matches all.
pub del_dispatcher-some :
    (m : DispatchManager) (a : DispatchAddress) (id d : ℕ)
    → lookup a m.dispatchers ≡ some d
    → del_dispatcher m a id ≡ (if eqb id any_id || eqb id d then (taken m a, some d) else (m, none))
unfolding del_dispatcher
del_dispatcher-some m a id d e =
    rw (e, del_dispatcher)
      (elim (Bool-cases (eqb id any_id)) [
        | inl x ↦ rw x refl
        | inr x ↦ elim (Bool-cases (eqb id d)) [ inl y ↦ rw (x, y) refl | inr y ↦ rw (x, y) refl ]
      ])

pub kick_old-dispatchers :
    (m : DispatchManager) (old : Option ℕ) → (kick_old m old).0.dispatchers ≡ m.dispatchers
unfolding kick_old
kick_old-dispatchers m none = refl
kick_old-dispatchers m (some d) = on_channel-dispatchers m d _

pub last-kick_old :
    (m : DispatchManager) (old : Option ℕ) (g : Call → Option Bool) (b : Bool)
    → ((k : ℕ) (x : Action) → g (acts k x) ≡ none)
    → last g b (kick_old m old).1 ≡ b
unfolding kick_old last
last-kick_old m none g b h = refl
last-kick_old m (some d) g b h = last-on_channel m d _ g b h

present-insert :
    (a a' : DispatchAddress) (d : ℕ) (m m' : DispatchManager)
    → m'.dispatchers ≡ insert a d m.dispatchers
    → present a' m' ≡ (if a == a' then true else present a' m)
unfolding present
present-insert a a' d m m' e = rw e (ground (arith, lookup-insert a a' d m.dispatchers))

module _ (l : ℕ) (a' : DispatchAddress) (m : DispatchManager)
    (here : elem l m.listeners ≡ true) where
  pub unsubscribe-Agrees : (a : DispatchAddress) (id : ℕ) → Agrees l a' m (unsubscribe m a id)
  unfolding unsubscribe
  unsubscribe-Agrees a id = elim (Option-cases (lookup a m.dispatchers)) [
    | inl e ↦ rw (del_dispatcher-none m a id e, unsubscribe) (quiet l a' m m refl)
    | inr (d, e) ↦
        let del = del_dispatcher-some m a id d e in
        elim (Bool-cases (eqb id any_id || eqb id d)) [
          | inl n ↦
              let found : del_dispatcher m a id ≡ (taken m a, some d) = del ∙ rw n refl in
              rw (found, unsubscribe)
                (rw found (
                  dismissed-Told l a a' m d (λ c. on_dispatch_unsubscribed c false) here,
                  dismissed-Asked l a a' m d (λ c. on_dispatch_unsubscribed c false),
                ))
          | inr n ↦ rw (del, n, unsubscribe) (quiet l a' m m refl)
        ]
  ]

  -- Without a channel redis is asked all the same, and the address is absent before and after.
  kick_nobody :
      (a : DispatchAddress) → lookup a m.dispatchers ≡ none → Agrees l a' m (m, unsubscribes a ∷ [])
  unfolding last notice request present
  kick_nobody a e = (
    refl,
    elim (Bool-cases (a == a')) [
      | inl s ↦ rw s (
          ap is_some
            (sym (subst (λ x. lookup x m.dispatchers ≡ none) ((address_key.beq_iff a a').0 s) e)))
      | inr s ↦ rw s refl
    ],
  )

  pub kick-Agrees : (a : DispatchAddress) → Agrees l a' m (kick m a)
  unfolding kick
  kick-Agrees a = elim (Option-cases (lookup a m.dispatchers)) [
    | inl e ↦ rw (del_dispatcher-none m a any_id e, kick) (kick_nobody a e)
    | inr (d, e) ↦
        let found : del_dispatcher m a any_id ≡ (taken m a, some d) =
          del_dispatcher-some m a any_id d e in
        rw (found, kick)
          (rw found (
            dismissed-Told l a a' m d (λ c. on_dispatch_unsubscribed c true) here,
            dismissed-Asked l a a' m d (λ c. on_dispatch_unsubscribed c true),
          ))
  ]

  pub subscribe-Agrees :
      (serialize : Str → Str) (a : DispatchAddress) (by_id : Bool) (fresh : ℕ)
      → Agrees l a' m (subscribe serialize m a by_id fresh)
  unfolding subscribe replace_dispatcher last notice request on_user_status_change
  subscribe-Agrees serialize a by_id fresh =
      let made : Channel = record { available = false; address = a; by_request_id = by_id } in
      let m2 = record m {
        objects = insert fresh made m.objects;
        dispatchers = insert a fresh m.dispatchers;
      } in
      let old = lookup a m.dispatchers in
      let change = on_user_status_change m2 a true in
      let kicked = (kick_old m2 old).1 in
      let b = present a' m in
      let c = or_else (if a == a' then some true else none) b in
      (
        last-append (notice l a') b change kicked
            ∙ last-kick_old m2 old (notice l a') _ (notice-acts l a')
            ∙ told_all l a a' true b m.listeners
            ∙ ground (
              arith,
              here,
              present-insert a a' fresh m (kick_old m2 old).0 (kick_old-dispatchers m2 old),
            ),
        last-append (request a') c change kicked
            ∙ last-kick_old m2 old (request a') _ (request-acts a')
            ∙ asked_none l a a' true c m.listeners
            ∙ ground (
              arith,
              present-insert a a' fresh m (kick_old m2 old).0 (kick_old-dispatchers m2 old),
            ),
      )

  -- What is received is put into the queue, or nothing is done.
  pub received-Agrees :
      (split : Str → List Str) (s message : Str)
      → Agrees l a' m (on_subscribe split m s, [])
        × Agrees l a' m (on_message split m s message, [])
  unfolding on_subscribe on_message
  received-Agrees split s message = (quiet l a' m _ (ground arith), quiet l a' m _ (ground arith))

  pub sent-Agrees :
      (to : List DispatchAddress) (message : Str)
      (messages : List (Option (List DispatchAddress) × Option Str))
      → Agrees l a' m (send_group_message m to message, [])
        × Agrees l a' m (send_group_messages m messages, [])
  unfolding send_group_message send_group_messages
  sent-Agrees to message messages = (quiet l a' m _ (ground arith), quiet l a' m _ (ground arith))

  pub to_dispatcher-Agrees :
      (q : List Message) (a : DispatchAddress) (f : ℕ → Channel → Channel × List Action)
      → Agrees l a' m (to_dispatcher (record m { batch = q }) a f)
  unfolding to_dispatcher get_dispatcher
  to_dispatcher-Agrees q a f = elim (Option-cases (lookup a m.dispatchers)) [
    | inl e ↦ rw (e, to_dispatcher) (quiet l a' m _ refl)
    | inr (d, e) ↦
        let m1 = record m { batch = q } in
        let p =
          sym (present-of a' m (on_channel m1 d (f d)).0 (on_channel-dispatchers m1 d (f d))) in
        rw (e, to_dispatcher)
          (
            last-on_channel m1 d (f d) (notice l a') (present a' m) (notice-acts l a') ∙ p,
            last-on_channel m1 d (f d) (request a') (present a' m) (request-acts a') ∙ p,
          )
  ]
