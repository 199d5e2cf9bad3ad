-- ===== src/Dispatch/OrderWork.antt =====
-- src/dispatcher/dispatch_manager.cpp: what is received, and what the worker does with it.
use bcm_server.Base.{
  ==_refl, All, All-append, Bool, Bool-cases, List, Option, Option-cases, Str, [], ap, arith, eqb,
  false, inl, inr, insert, is_empty, lookup, lookup-insert, map, none, not, refl, some, subst, sym,
  true, ℕ, ◌&&◌, ◌++◌, ◌==◌, ◌||◌, ◌∙◌, ◌∷◌, ◌≡◌, str_key, nat_key,
}
use mathlib.Core.List.{append-nil, append_assoc}
use bcm_server.Dispatch.Address.{DispatchAddress, address_key, deserialize, address_key}
use bcm_server.Dispatch.Channel.{
  Action, Channel, Protocol, on_dispatch_group_message, on_dispatch_subscribed, put_group_message,
}
use bcm_server.Dispatch.Manager.{
  Call, DispatchManager, Message, acts, dispatch_message, get_dispatcher, group_message, on_channel,
  on_message, on_subscribe, redis_connected, redis_disconnected, redis_message, redis_subscribed,
  redis_unsubscribed, take_batch, to_dispatcher,
}
use bcm_server.Dispatch.Order.{
  NotRedis, Serves, is_open, pending, put_by, puts, text_for, texts, texts-append,
}
use bcm_server.Dispatch.OrderOthers.{unchanged}
use bcm_server.Dispatch.Events.{
  Event, World, address_of, group_sends, groups_send, kicking, part, redis_sends, redis_subscribes,
  registering, responds, subscribing, touches, unregistering, unsubscribing, work, works,
}
use bcm_server.Dispatch.OrderSteps.{Keeps, on_channel-Serves, other_channel, same_channel}

unopened : (o : Option Channel) → o ≡ none → is_open o ≡ true → ⊥
unopened none e h = cc
unopened (some c) e h = cc

module _ (a : DispatchAddress) (d : ℕ) where
  -- Messages that are put into the queue.
  pub queued-Keeps :
      (m : DispatchManager) (ms : List Message)
      → All (NotRedis a) ms
      → Serves a d m
      → Keeps a d m (texts a ms) (record m { queue = m.queue ++ ms }, [])
  unfolding puts
  queued-Keeps m ms p v = (
    record {
      has = v.has;
      sole = v.sole;
      opened = v.opened;
      plain =
          subst (All (NotRedis a)) (append_assoc m.batch m.queue ms)
            (All-append (NotRedis a) (pending m) ms v.plain p);
    },
    ap (texts a) (sym (append_assoc m.batch m.queue ms)) ∙ texts-append a (pending m) ms,
  )

  to_other :
      (m : DispatchManager) (b : DispatchAddress) (f : ℕ → Channel → Channel × List Action)
      → (a == b) ≡ false
      → Serves a d m
      → Serves a d (to_dispatcher m b f).0
        × (puts d (to_dispatcher m b f).1 ≡ [])
        × (pending (to_dispatcher m b f).0 ≡ pending m)
  unfolding to_dispatcher get_dispatcher puts
  to_other m b f n v = elim (Option-cases (lookup b m.dispatchers)) [
    | inl e ↦ rw (e, to_dispatcher) (v, refl, refl)
    | inr (k, e) ↦
        rw (e, to_dispatcher) (on_channel-Serves a d m k (f k) (other_channel a d m b k n e v) v)
  ]

  -- An operation that leaves the channel as it is.
  to_self :
      (m : DispatchManager) (f : ℕ → Channel → Channel × List Action) (xs : List Action)
      → ((c : Channel) → c.available ≡ true → f d c ≡ (c, xs))
      → Serves a d m
      → Serves a d (to_dispatcher m a f).0
        × (puts d (to_dispatcher m a f).1 ≡ puts d (map (acts d) xs))
        × (pending (to_dispatcher m a f).0 ≡ pending m)
  unfolding to_dispatcher get_dispatcher on_channel
  to_self m f xs h v = elim (Option-cases (lookup d m.objects)) [
    | inl e ↦ absurd (unopened (lookup d m.objects) e v.opened)
    | inr (c, e) ↦
        let open' : c.available ≡ true = subst (λ o. is_open o ≡ true) e v.opened in
        let g = h c open' in
        rw (v.has, e, to_dispatcher, on_channel)
          (rw g (
            same_channel a d m (insert d c m.objects)
                (ap is_open {y = some c} (lookup-insert d d c m.objects ∙ rw (==_refl d) refl)
                  ∙ open')
                v,
            refl,
            refl,
          ))
  ]

  abbrev Handles : DispatchManager → Message → DispatchManager × List Call → Type 0
  Handles m x r = Serves a d r.0 × (puts d r.1 ≡ text_for a x) × (pending r.0 ≡ pending m)

  group-Handles :
      (p : Protocol) (m : DispatchManager) (b : DispatchAddress) (s : Str)
      → Serves a d m
      → Handles m (group_message b s) (dispatch_message p m (group_message b s))
  unfolding dispatch_message on_dispatch_group_message text_for puts
  group-Handles p m b s v = elim (Bool-cases (a == b)) [
    | inl same ↦
        let u =
          to_self m (λ k c. on_dispatch_group_message c s) (put_group_message s ∷ [])
            (λ c o. rw o refl) v in
        subst (λ c. Handles m (group_message c s) (dispatch_message p m (group_message c s)))
          ((address_key.beq_iff a b).0 same) (u.0, u.1 ∙ rw (==_refl d, ==_refl a) refl, u.2)
    | inr other ↦
        let u = to_other m b (λ k c. on_dispatch_group_message c s) other v in
        let back : (b == a) ≡ false =
          ground (arith, address_key.beq_iff a b, address_key.beq_iff b a) in
        (u.0, u.1 ∙ rw back refl, u.2)
  ]

  dispatch-Handles :
      (p : Protocol) (m : DispatchManager) (x : Message)
      → NotRedis a x
      → Serves a d m
      → Handles m x (dispatch_message p m x)
  unfolding dispatch_message text_for puts put_by
  dispatch-Handles p m redis_connected n v = (v, refl, refl)
  dispatch-Handles p m redis_disconnected n v = (v, refl, refl)
  dispatch-Handles p m (redis_subscribed b) n v = elim (Bool-cases (a == b)) [
    | inl s ↦
        subst (λ c. Handles m (redis_subscribed c) (dispatch_message p m (redis_subscribed c)))
          ((address_key.beq_iff a b).0 s)
          (to_self m _ []
            (λ c o. unfold on_dispatch_subscribed in rw (o, on_dispatch_subscribed) refl) v)
    | inr o ↦ to_other m b _ o v
  ]
  dispatch-Handles p m (redis_unsubscribed b) n v = to_other m b _ n v
  dispatch-Handles p m (redis_message b s) n v = to_other m b _ n v
  dispatch-Handles p m (group_message b s) n v = group-Handles p m b s v

  pub work-Keeps :
      (p : Protocol) (m : DispatchManager) (batch : List Message)
      → m.batch ≡ batch
      → Serves a d m
      → Keeps a d m [] (work p m batch)
  unfolding work take_batch puts texts
  work-Keeps p m [] e v =
      let same : m.queue ++ [] ≡ pending m = append-nil m.queue ∙ sym (ap (λ b. b ++ m.queue) e) in
      (
        record {
          has = v.has;
          sole = v.sole;
          opened = v.opened;
          plain = subst (All (NotRedis a)) (sym same) v.plain;
        },
        ap (texts a) same ∙ sym (append-nil (texts a (pending m))),
      )
  work-Keeps p m (x ∷ rest) e v =
      let m1 = record m { batch = rest } in
      let all : All (NotRedis a) (x ∷ pending m1) =
        subst (λ b. All (NotRedis a) (b ++ m.queue)) e v.plain in
      let v1 : Serves a d m1 = record {
        has = v.has;
        sole = v.sole;
        opened = v.opened;
        plain = all.1;
      } in
      let u = dispatch-Handles p m1 x all.0 v1 in
      (u.0, rw (u.1, u.2, append-nil) (ap (texts a) (sym (ap (λ b. b ++ m.queue) e))))

-- An event makes and removes no channel of the address, and brings no message of redis for it.
abbrev pub is_for : DispatchAddress → Option DispatchAddress → Bool
is_for a none = false
is_for a (some b) = a == b

abbrev pub IsUntouched : World → DispatchAddress → ℕ → Event → Type 0
IsUntouched w a d (subscribing b by_id fresh) = ((a == b) ≡ false) × (eqb fresh d ≡ false)
IsUntouched w a d (unsubscribing b id) = (a == b) ≡ false
IsUntouched w a d (kicking b) = (a == b) ≡ false
IsUntouched w a d (redis_sends s message) = is_for a (deserialize w.split s) ≡ false
IsUntouched w a d (redis_subscribes s) = Unit
IsUntouched w a d (group_sends to message) = Unit
IsUntouched w a d (groups_send messages) = Unit
IsUntouched w a d (registering l) = Unit
IsUntouched w a d (unregistering l) = Unit
IsUntouched w a d (responds k message successful) =
    (eqb k d && (not successful && w.protocol.ends_session message)) ≡ false
IsUntouched w a d (part p) = ((a == address_of p) ≡ false) × (touches d p ≡ false)
IsUntouched w a d works = Unit

module _ (w : World) (a : DispatchAddress) (d : ℕ) where
  pub received-Keeps :
      (m : DispatchManager) (s message : Str)
      → Serves a d m
      → is_for a (deserialize w.split s) ≡ false
      → Keeps a d m [] (on_message w.split m s message, [])
  unfolding on_message puts texts
  received-Keeps m s message v n = elim (Bool-cases (is_empty s || is_empty message)) [
    | inl e ↦ rw e (unchanged a d m [] refl v)
    | inr e ↦ elim (Option-cases (deserialize w.split s)) [
      | inl g ↦ rw (e, g) (unchanged a d m [] refl v)
      | inr (b, g) ↦
          rw (e, g)
            (queued-Keeps a d m (redis_message b message ∷ [])
              (subst (λ o. is_for a o ≡ false) g n, tt) v)
    ]
  ]

  pub subscribed-Keeps :
      (m : DispatchManager) (s : Str) → Serves a d m → Keeps a d m [] (on_subscribe w.split m s, [])
  unfolding on_subscribe puts texts
  subscribed-Keeps m s v = elim (Bool-cases (is_empty s)) [
    | inl e ↦ rw e (unchanged a d m [] refl v)
    | inr e ↦ elim (Option-cases (deserialize w.split s)) [
      | inl g ↦ rw (e, g) (unchanged a d m [] refl v)
      | inr (b, g) ↦ rw (e, g) (queued-Keeps a d m (redis_subscribed b ∷ []) (tt, tt) v)
    ]
  ]
