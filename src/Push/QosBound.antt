-- ===== src/Push/QosBound.antt =====
-- src/push/apns_qos_mgr.cpp: how often a notification is resent.
use bcm_server.Base.{
  ==_refl, Bool, Bool-cases, List, Option, Option-cases, Str, [], ap, arith, eqb, if◌then◌else◌,
  inl, inr, insert, leb, lookup, lookup-erase, lookup-insert, none, refl, some, str_eq, str_eq_iff,
  subst, ℕ, ◌++◌, ◌+◌, ◌-◌, ◌<◌, ◌∙◌, ◌∷◌, ◌≡◌, ◌≤◌, str_key, nat_key,
}
use bcm_server.Dispatch.Address.{DispatchAddress, get_serialized_for_online_notify, address_key}
use bcm_server.Push.Qos.{
  PubSub, QosEvent, QosMgr, ResendTask, Sent, alive, awaited, connected, do_schedule_resend,
  do_unschedule_resend, drop_task, forget, garbled, handle, is_task_exists, message,
  on_check_user_online, on_message, on_redis_reconnected, on_reply, on_timeout, other, qos_run,
  qos_step, reconnected, reply, schedules, timeout,
}
use bcm_server.Push.QosChannel.{IsTaskOf}
use bcm_server.Push.QosInv.{Inv, qos_step-Inv}

-- The notifications that were sent again for a channel.
unfoldable pub sent_to : {N : Type 0} → Str → List (Sent N) → ℕ
sent_to c [] = 0
sent_to c (s ∷ out) = (if str_eq s.chan c then 1 else 0) + sent_to c out

-- The resends that a task has left.
pub left : {N : Type 0} → ℕ → Option (ResendTask N) → ℕ
left m none = 0
left m (some t) = m - t.resend_count

-- What the events can add for a channel: a call of `scheduleResend` for it starts the count again.
renewed : {N : Type 0} → ℕ → Str → QosEvent N → ℕ
renewed m c (schedules addr apns_type n added) =
    if str_eq (get_serialized_for_online_notify addr) c then m else 0
renewed m c (timeout chan) = 0
renewed m c (reply chan serial online) = 0
renewed m c (message chan msg) = 0
renewed m c (reconnected ok) = 0

pub budget : {N : Type 0} → ℕ → Str → List (QosEvent N) → ℕ
unfolding renewed
budget m c [] = 0
budget m c (e ∷ es) = renewed m c e + budget m c es

sent_to-append :
    {N : Type 0} (c : Str) (xs ys : List (Sent N))
    → sent_to c (xs ++ ys) ≡ sent_to c xs + sent_to c ys
unfolding sent_to
sent_to-append c [] ys = omega arith
sent_to-append c (x ∷ xs) ys = omega (arith, sent_to-append c xs ys)

-- What a step may spend.
abbrev Spends : {N : Type 0} → ℕ → Str → QosMgr N → ℕ → QosMgr N × List (Sent N) → Type 0
Spends m c q more r = left m (lookup c r.0.tasks) + sent_to c r.1 ≤ left m (lookup c q.tasks) + more

module _ {N : Type 0} (m : ℕ) (c : Str) (q : QosMgr N) where
  left-insert :
      (chan : Str) (t : ResendTask N)
      → left m (lookup c (insert chan t q.tasks))
        ≡ (if str_eq chan c then m - t.resend_count else left m (lookup c q.tasks))
  unfolding left
  left-insert chan t = ground (arith, lookup-insert chan c t q.tasks)

  do_schedule_resend-Spends :
      (addr : DispatchAddress) (apns_type : Str) (n : N) (added : Bool)
      → Spends m c q
          (renewed m c (schedules addr apns_type n added))
          (do_schedule_resend q addr apns_type n added, [])
  unfolding do_schedule_resend renewed left sent_to
  do_schedule_resend-Spends addr apns_type n added =
      let chan = get_serialized_for_online_notify addr in
      elim (Option-cases (lookup chan q.tasks)) [
        | inl e ↦
            rw (e, do_schedule_resend)
              (ground (
                arith,
                left-insert chan (record {
                  serial = q.next_serial;
                  addr = addr;
                  apns_type = apns_type;
                  notification = n;
                  resend_count = 0;
                }),
              ))
        | inr (t, e) ↦
            rw (e, do_schedule_resend)
              (ground (
                arith,
                left-insert chan
                    (record t { apns_type = apns_type; notification = n; resend_count = 0 }),
              ))
      ]

  drop_task-Spends :
      (chan : Str)
      → left m (lookup c (drop_task q chan).tasks)
        ≤ (if str_eq chan c then 0 else left m (lookup c q.tasks))
  unfolding drop_task left
  drop_task-Spends chan = ground (arith, lookup-erase chan c q.tasks)

  on_message-Spends : (chan : Str) (msg : PubSub) → Spends m c q 0 (on_message q chan msg, [])
  unfolding on_message sent_to
  on_message-Spends chan garbled = omega arith
  on_message-Spends chan other = omega arith
  on_message-Spends chan connected = ground (arith, drop_task-Spends chan)

  on_timeout-Spends : (chan : Str) → Spends m c q 0 (on_timeout q chan, [])
  unfolding on_timeout sent_to
  on_timeout-Spends chan = ground arith

  on_redis_reconnected-Spends : (ok : Bool) → Spends m c q 0 (on_redis_reconnected q ok, [])
  unfolding on_redis_reconnected sent_to
  on_redis_reconnected-Spends ok = ground arith

module _ {N : Type 0} (m : ℕ) (c : Str) where
  left-there :
      (q : QosMgr N) (chan : Str) (t : ResendTask N)
      → lookup chan q.tasks ≡ some t
      → left m (lookup c q.tasks)
        ≡ (if str_eq chan c then m - t.resend_count else left m (lookup c q.tasks))
  unfolding left
  left-there q chan t there = elim (Bool-cases (str_eq chan c)) [
    | inl e ↦
        rw e (ap (left m) (subst (λ d. lookup d q.tasks ≡ some t) ((str_eq_iff chan c).0 e) there))
    | inr e ↦ rw e refl
  ]

  on_check_user_online-Spends :
      (q : QosMgr N) (chan : Str) (t : ResendTask N) (online : Bool)
      → lookup chan q.tasks ≡ some t
      → IsTaskOf m q.next_serial chan (some t)
      → Spends m c q 0 (on_check_user_online m q t online)
  unfolding on_check_user_online is_task_exists do_unschedule_resend sent_to
  on_check_user_online-Spends q chan t online there own =
      let t' = record t { resend_count = t.resend_count + 1 } in
      let here : lookup (get_serialized_for_online_notify t.addr) q.tasks ≡ some t =
        rw own.0 there in
      let K = get_serialized_for_online_notify t.addr in
      let counted = record q { tasks = insert K t' q.tasks } in
      let there' : lookup K counted.tasks ≡ some t' =
        lookup-insert K K t' q.tasks ∙ rw (==_refl K) refl in
      let value : left m (lookup c q.tasks)
          ≡ (if str_eq K c then m - t.resend_count else left m (lookup c q.tasks)) =
        left-there q K t here in
      elim (Bool-cases online) [
        | inl e ↦ rw (here, e, on_check_user_online) (ground (arith, drop_task-Spends m c q K))
        | inr e ↦ elim (Bool-cases (leb m (t.resend_count + 1))) [
          | inl l ↦
              rw (here, e, l, on_check_user_online)
                (rw (there', do_unschedule_resend)
                  (ground
                    (arith, drop_task-Spends m c counted K, left-insert m c q K t', value, own.1)))
          | inr l ↦
              rw (here, e, l, on_check_user_online)
                (ground (arith, left-insert m c q K t', value, own.1))
        ]
      ]

  on_reply-Spends :
      (q : QosMgr N) (chan : Str) (serial : ℕ) (online : Bool)
      → Inv m q
      → Spends m c q 0 (on_reply m q chan serial online)
  unfolding on_reply alive sent_to
  on_reply-Spends q chan serial online v =
      let q' = record q { checks = forget chan serial q.checks } in
      elim (Bool-cases (awaited chan serial q.checks)) [
        | inr w ↦ rw w (omega arith)
        | inl w ↦ elim (Option-cases (lookup chan q.tasks)) [
          | inl e ↦ rw (w, e) (omega arith)
          | inr (t, e) ↦ elim (Bool-cases (eqb t.serial serial)) [
            | inl a ↦
                rw (w, e, a, on_reply)
                  (on_check_user_online-Spends q' chan t online e
                    (subst (IsTaskOf m q.next_serial chan) e (v.sound chan).1))
            | inr a ↦ rw (w, e, a, on_reply) (omega arith)
          ]
        ]
      ]

  handle-Spends :
      (q : QosMgr N) (e : QosEvent N) → Inv m q → Spends m c q (renewed m c e) (handle m q e)
  unfolding handle renewed
  handle-Spends q (schedules addr apns_type n added) v =
      do_schedule_resend-Spends m c q addr apns_type n added
  handle-Spends q (timeout chan) v = on_timeout-Spends m c q chan
  handle-Spends q (reply chan serial online) v = on_reply-Spends q chan serial online v
  handle-Spends q (message chan msg) v = on_message-Spends m c q chan msg
  handle-Spends q (reconnected ok) v = on_redis_reconnected-Spends m c q ok

  qos_step-Spends :
      (q : QosMgr N) (e : QosEvent N) → Inv m q → Spends m c q (renewed m c e) (qos_step m q e)
  unfolding qos_step sent_to
  qos_step-Spends q e v = elim (Bool-cases q.faulted) [
    | inl f ↦ simp f (omega arith)
    | inr f ↦ simp f (handle-Spends q e v)
  ]

  -- From a state that keeps the invariant, with a positive bound, whatever happens and in whatever order:
  -- the notifications that are sent again for one channel, with the resends that its task has left at
  -- the end, are at most those that it had left at the start and one full bound for each call of
  -- `scheduleResend` for that channel.
  pub sent_to-le-budget :
      (q : QosMgr N) (es : List (QosEvent N))
      → 0 < m
      → Inv m q
      → sent_to c (qos_run m q es).1 + left m (lookup c (qos_run m q es).0.tasks)
        ≤ left m (lookup c q.tasks) + budget m c es
  unfolding qos_run budget sent_to
  sent_to-le-budget q [] h v = omega arith
  sent_to-le-budget q (e ∷ es) h v = omega (
    arith,
    qos_step-Spends q e v,
    sent_to-le-budget (qos_step m q e).0 es h (qos_step-Inv m q e h v),
    sent_to-append c (qos_step m q e).1 (qos_run m (qos_step m q e).0 es).1,
  )
