-- ===== src/Push/QosInv.antt =====
-- src/push/apns_qos_mgr.cpp: what holds between the events of `QosMgrImpl`.
use bcm_server.Base.{
  ==_refl, All, Bool, Bool-cases, List, Option-cases, Str, [], arith, eqb, false, inl, inr, insert,
  is_some, leb, lookup, lookup-insert, refl, some, str_eq, subst, suc, true, ℕ, ◌&&◌, ◌+◌, ◌<◌, ◌∙◌,
  ◌∷◌, ◌≡◌, str_key, nat_key,
}
use bcm_server.Dispatch.Address.{DispatchAddress, get_serialized_for_online_notify, address_key}
use bcm_server.Push.Qos.{
  PubSub, QosEvent, QosMgr, ResendTask, alive, awaited, connected, do_schedule_resend,
  do_unschedule_resend, drop_task, forget, garbled, handle, is_task_exists, message,
  on_check_user_online, on_message, on_redis_reconnected, on_reply, on_timeout, other, qos_step,
  reconnected, reply, schedules, timeout,
}
use bcm_server.Push.QosChannel.{
  IsSound, IsTaskOf, do_schedule_resend-IsSound, drop_task-IsSound, on_redis_reconnected-IsSound,
  put_known,
}

-- All of it, at every channel, with the serials that are waited for.
pub record Inv {N : Type 0} (m : ℕ) (q : QosMgr N) : Type 0 where
  pub sound : (c : Str) → IsSound m q c
  pub earlier : All (λ (p : Str × ℕ). p.1 < q.next_serial) q.checks

forget-All :
    (P : Str × ℕ → Type 0) (chan : Str) (serial : ℕ) (cs : List (Str × ℕ))
    → All P cs
    → All P (forget chan serial cs)
unfolding forget
forget-All P chan serial [] h = tt
forget-All P chan serial ((c, k) ∷ cs) h = elim (Bool-cases (str_eq c chan && eqb k serial)) [
  | inl e ↦ rw e h.1
  | inr e ↦ rw e (h.0, forget-All P chan serial cs h.1)
]

All-suc :
    (k : ℕ) (cs : List (Str × ℕ))
    → All (λ (p : Str × ℕ). p.1 < k) cs
    → All (λ (p : Str × ℕ). p.1 < suc k) cs
All-suc k [] h = tt
All-suc k (x ∷ cs) h = (omega arith, All-suc k cs h.1)

module _ {N : Type 0} (m : ℕ) (q : QosMgr N) (v : Inv m q) where
  do_schedule_resend-earlier :
      (addr : DispatchAddress) (apns_type : Str) (n : N) (added : Bool)
      → All
          (λ (p : Str × ℕ). p.1 < (do_schedule_resend q addr apns_type n added).next_serial)
          (do_schedule_resend q addr apns_type n added).checks
  unfolding do_schedule_resend
  do_schedule_resend-earlier addr apns_type n added =
      let later = All-suc q.next_serial q.checks v.earlier in
      elim (Option-cases (lookup (get_serialized_for_online_notify addr) q.tasks)) [
        | inl e ↦ elim (Bool-cases added) [
          | inl y ↦ rw (e, y, do_schedule_resend) later
          | inr y ↦ rw (e, y, do_schedule_resend) later
        ]
        | inr (t, e) ↦ rw (e, do_schedule_resend) v.earlier
      ]

  on_redis_reconnected-earlier :
      (ok : Bool)
      → All
          (λ (p : Str × ℕ). p.1 < (on_redis_reconnected q ok).next_serial)
          (on_redis_reconnected q ok).checks
  unfolding on_redis_reconnected
  on_redis_reconnected-earlier true = v.earlier
  on_redis_reconnected-earlier false = v.earlier

  schedules-Inv :
      (addr : DispatchAddress) (apns_type : Str) (n : N) (added : Bool)
      → 0 < m
      → Inv m (do_schedule_resend q addr apns_type n added)
  schedules-Inv addr apns_type n added h = record {
    sound = λ c. do_schedule_resend-IsSound m q c addr apns_type n added h (v.sound _) (v.sound c);
    earlier = do_schedule_resend-earlier addr apns_type n added;
  }

  drop_task-Inv : (chan : Str) → Inv m (drop_task q chan)
  drop_task-Inv chan = record {
    sound = λ c. drop_task-IsSound m q c chan (λ _. v.sound c);
    earlier = unfold drop_task in v.earlier;
  }

  do_unschedule_resend-Inv : (addr : DispatchAddress) → Inv m (do_unschedule_resend q addr)
  unfolding do_unschedule_resend
  do_unschedule_resend-Inv addr =
      elim (Bool-cases (is_some (lookup (get_serialized_for_online_notify addr) q.tasks))) [
        | inl e ↦
            rw (e, do_unschedule_resend) (drop_task-Inv (get_serialized_for_online_notify addr))
        | inr e ↦ rw (e, do_unschedule_resend) v
      ]

  on_message-Inv : (chan : Str) (msg : PubSub) → Inv m (on_message q chan msg)
  unfolding on_message
  on_message-Inv chan garbled = v
  on_message-Inv chan other = v
  on_message-Inv chan connected = elim (Bool-cases (is_some (lookup chan q.tasks))) [
    | inl e ↦ rw e (drop_task-Inv chan)
    | inr e ↦ rw e v
  ]

  on_redis_reconnected-Inv : (ok : Bool) → Inv m (on_redis_reconnected q ok)
  on_redis_reconnected-Inv ok = record {
    sound = λ c. on_redis_reconnected-IsSound m q c ok (v.sound c);
    earlier = on_redis_reconnected-earlier ok;
  }

  on_timeout-Inv : (chan : Str) → Inv m (on_timeout q chan)
  unfolding on_timeout
  on_timeout-Inv chan = elim (Option-cases (lookup chan q.tasks)) [
    | inl e ↦ rw (e, on_timeout) v
    | inr (t, e) ↦
        rw (e, on_timeout)
          (record {
            sound = v.sound;
            earlier = ((subst (IsTaskOf m q.next_serial chan) e (v.sound chan).1).2, v.earlier);
          })
  ]

module _ {N : Type 0} (m : ℕ) where
  resent_last-Inv :
      (q : QosMgr N) (t t' : ResendTask N)
      → lookup (get_serialized_for_online_notify t.addr) q.tasks ≡ some t
      → Inv m q
      → Inv m (
          do_unschedule_resend
            (record q { tasks = insert (get_serialized_for_online_notify t.addr) t' q.tasks })
            t.addr)
  unfolding do_unschedule_resend
  resent_last-Inv q t t' there v =
      let chan = get_serialized_for_online_notify t.addr in
      let counted = record q { tasks = insert chan t' q.tasks } in
      let here : lookup chan counted.tasks ≡ some t' =
        lookup-insert chan chan t' q.tasks ∙ rw (==_refl chan) refl in
      rw (here, do_unschedule_resend)
        (record {
          sound = λ c.
              drop_task-IsSound m counted c chan
                (λ e. rw (lookup-insert chan c t' q.tasks, e) (v.sound c));
          earlier = unfold drop_task in v.earlier;
        })

  -- The task is sent once more, and canceled or counted.
  on_check_user_online-Inv :
      (q : QosMgr N) (chan : Str) (t : ResendTask N) (online : Bool)
      → lookup chan q.tasks ≡ some t
      → Inv m q
      → Inv m (on_check_user_online m q t online).0
  unfolding on_check_user_online is_task_exists do_unschedule_resend
  on_check_user_online-Inv q chan t online there v =
      let own = subst (IsTaskOf m q.next_serial chan) there (v.sound chan).1 in
      let here : lookup (get_serialized_for_online_notify t.addr) q.tasks ≡ some t =
        rw own.0 there in
      elim (Bool-cases online) [
        | inl e ↦
            rw (here, e, on_check_user_online)
              (drop_task-Inv m q v (get_serialized_for_online_notify t.addr))
        | inr e ↦ elim (Bool-cases (leb m (t.resend_count + 1))) [
          | inl l ↦
              rw (here, e, l, on_check_user_online)
                (resent_last-Inv q t (record t { resend_count = t.resend_count + 1 }) here v)
          | inr l ↦
              rw (here, e, l, on_check_user_online)
                (record {
                  sound = λ c.
                      put_known m q c _ t (record t { resend_count = t.resend_count + 1 }) here
                        (refl, ground arith, own.2) (v.sound _) (v.sound c);
                  earlier = v.earlier;
                })
        ]
      ]

  on_reply-Inv :
      (q : QosMgr N) (chan : Str) (serial : ℕ) (online : Bool)
      → Inv m q
      → Inv m (on_reply m q chan serial online).0
  unfolding on_reply alive
  on_reply-Inv q chan serial online v =
      let q' = record q { checks = forget chan serial q.checks } in
      let v' : Inv m q' = record {
        sound = v.sound;
        earlier = forget-All _ chan serial q.checks v.earlier;
      } in
      elim (Bool-cases (awaited chan serial q.checks)) [
        | inr w ↦ rw w v
        | inl w ↦ elim (Option-cases (lookup chan q.tasks)) [
          | inl e ↦ rw (w, e, alive) (record { sound = v.sound; earlier = v'.earlier })
          | inr (t, e) ↦ elim (Bool-cases (eqb t.serial serial)) [
            | inl a ↦ rw (w, e, alive, a, on_reply) (on_check_user_online-Inv q' chan t online e v')
            | inr a ↦
                rw (w, e, alive, a, on_reply) (record { sound = v.sound; earlier = v'.earlier })
          ]
        ]
      ]

  handle-Inv : (q : QosMgr N) (e : QosEvent N) → 0 < m → Inv m q → Inv m (handle m q e).0
  unfolding handle
  handle-Inv q (schedules addr apns_type n added) h v = schedules-Inv m q v addr apns_type n added h
  handle-Inv q (timeout chan) h v = on_timeout-Inv m q v chan
  handle-Inv q (reply chan serial online) h v = on_reply-Inv q chan serial online v
  handle-Inv q (message chan msg) h v = on_message-Inv m q v chan msg
  handle-Inv q (reconnected ok) h v = on_redis_reconnected-Inv m q v ok

  -- With a positive bound on the resends, every event keeps this of the tasks and the subscriptions:
  -- a channel is subscribed exactly while it has a task, the task stands under the channel of its own
  -- address, has been resent fewer times than the bound, and is older than the next one to be made; and
  -- so is every task for which a reply is waited for.
  pub qos_step-Inv : (q : QosMgr N) (e : QosEvent N) → 0 < m → Inv m q → Inv m (qos_step m q e).0
  unfolding qos_step
  qos_step-Inv q e h v = elim (Bool-cases q.faulted) [
    | inl f ↦ simp f v
    | inr f ↦ simp f (handle-Inv q e h v)
  ]
