-- ===== src/Push/QosFault.antt =====
-- src/push/apns_qos_mgr.cpp: the reply of a check of a task that is gone.
use bcm_server.Base.{
  ==_refl, All, Bool, Bool-cases, List, Str, [], false, inl, inr, lookup, lookup-erase, refl, some,
  subst, true, ℕ, ◌++◌, ◌<◌, ◌∷◌, ◌≡◌, str_key, nat_key,
}
use bcm_server.Dispatch.Address.{address_key}
use bcm_server.Push.Qos.{
  QosEvent, QosMgr, ResendTask, alive, awaited, connected, drop_task, handle, message, on_message,
  on_reply, qos_run, qos_step, reconnected, reply, schedules, timeout,
}
use bcm_server.Push.QosChannel.{IsTaskOf}
use bcm_server.Push.QosInv.{Inv, qos_step-Inv}
use bcm_server.Push.QosInv.{Inv, qos_step-Inv}
use bcm_server.Push.QosChannel.{IsTaskOf}
use bcm_server.Push.QosDangles.{
  Dangles, IsOther, do_schedule_resend-Dangles, on_message-Dangles, on_redis_reconnected-Dangles,
  on_reply-Dangles, on_timeout-Dangles,
}
use bcm_server.Push.QosInv.{Inv, qos_step-Inv}

module _ {N : Type 0} (chan : Str) (serial : ℕ) where
  handle-Dangles :
      (m : ℕ) (q : QosMgr N) (e : QosEvent N)
      → Inv m q
      → IsOther chan serial e
      → Dangles chan serial q
      → Dangles chan serial (handle m q e).0
  unfolding handle
  handle-Dangles m q (schedules addr apns_type n added) i o v =
      do_schedule_resend-Dangles chan serial q addr apns_type n added v
  handle-Dangles m q (timeout c) i o v = on_timeout-Dangles chan serial q c v
  handle-Dangles m q (reply c k online) i o v = on_reply-Dangles chan serial m q c k online i o v
  handle-Dangles m q (message c msg) i o v = on_message-Dangles chan serial q c msg v
  handle-Dangles m q (reconnected ok) i o v = on_redis_reconnected-Dangles chan serial q ok v

  qos_step-Dangles :
      (m : ℕ) (q : QosMgr N) (e : QosEvent N)
      → Inv m q
      → IsOther chan serial e
      → Dangles chan serial q
      → Dangles chan serial (qos_step m q e).0
  unfolding qos_step
  qos_step-Dangles m q e i o v = elim (Bool-cases q.faulted) [
    | inl f ↦ simp f v
    | inr f ↦ simp f (handle-Dangles m q e i o v)
  ]

  -- The reply finds the task gone, or the state is faulted before.
  reply-Dangles :
      (m : ℕ) (q : QosMgr N) (online : Bool)
      → Dangles chan serial q
      → (qos_step m q (reply chan serial online)).0.faulted ≡ true
  unfolding qos_step handle on_reply
  reply-Dangles m q online v = elim (Bool-cases q.faulted) [
    | inl f ↦ simp f refl
    | inr f ↦ simp (f, v.waited, v.gone) refl
  ]

  run-Dangles :
      (m : ℕ) (q : QosMgr N) (es : List (QosEvent N)) (online : Bool)
      → 0 < m
      → Inv m q
      → All (IsOther chan serial) es
      → Dangles chan serial q
      → (qos_run m q (es ++ reply chan serial online ∷ [])).0.faulted ≡ true
  unfolding qos_run
  run-Dangles m q [] online h i o v = reply-Dangles m q online v
  run-Dangles m q (e ∷ es) online h i o v =
      run-Dangles m (qos_step m q e).0 es online h (qos_step-Inv m q e h i) o.1
        (qos_step-Dangles m q e i o.0 v)

-- The task is destroyed when its user connects.
connected_step :
    {N : Type 0} (m : ℕ) (q : QosMgr N) (chan : Str) (t : ResendTask N)
    → q.faulted ≡ false
    → lookup chan q.tasks ≡ some t
    → (qos_step m q (message chan connected)).0 ≡ drop_task q chan
unfolding qos_step handle on_message
connected_step m q chan t f there = simp (f, there) refl

drop_task-Dangles_self :
    {N : Type 0} (m : ℕ) (q : QosMgr N) (chan : Str) (t : ResendTask N)
    → Inv m q
    → lookup chan q.tasks ≡ some t
    → awaited chan t.serial q.checks ≡ true
    → Dangles chan t.serial (drop_task q chan)
unfolding drop_task alive
drop_task-Dangles_self m q chan t i there w = record {
  waited = w;
  gone = rw (lookup-erase chan chan q.tasks, ==_refl chan) refl;
  older = (subst (IsTaskOf m q.next_serial chan) there (i.sound chan).1).2;
}

-- Let a task be there, and a check of it be waited for, in a state that keeps the invariant, with a
-- positive bound and no fault so far. If its user then connects, so that the task is destroyed, and
-- the reply of the check arrives after any other events, the callback reads the destroyed task, also
-- when a new task for the same address has been scheduled in between.
pub late_reply-faults :
    {N : Type 0} (m : ℕ) (q : QosMgr N) (chan : Str) (t : ResendTask N) (es : List (QosEvent N))
    (online : Bool)
    → 0 < m
    → Inv m q
    → q.faulted ≡ false
    → lookup chan q.tasks ≡ some t
    → awaited chan t.serial q.checks ≡ true
    → All (IsOther chan t.serial) es
    → (qos_run m q (message chan connected ∷ es ++ reply chan t.serial online ∷ [])).0.faulted
      ≡ true
unfolding qos_run
late_reply-faults m q chan t es online h i f there w o =
    run-Dangles chan t.serial m (qos_step m q (message chan connected)).0 es online h
      (qos_step-Inv m q (message chan connected) h i) o
      (rw (connected_step m q chan t f there) (drop_task-Dangles_self m q chan t i there w))
