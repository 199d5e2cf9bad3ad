-- ===== src/Push/QosDangles.antt =====
-- src/push/apns_qos_mgr.cpp: a check that is waited for, of a task that is gone.
use bcm_server.Base.{
  Bool, Bool-cases, List, Map, Option-cases, Str, [], arith, eqb, erase, false, if◌then◌else◌, inl,
  inr, insert, is_some, leb, lookup, lookup-erase, lookup-insert, refl, some, str_eq, str_eq_iff,
  subst, true, ℕ, ◌&&◌, ◌+◌, ◌<◌, ◌∙◌, ◌∷◌, ◌≡◌, str_key, nat_key,
}
use bcm_server.Dispatch.Address.{DispatchAddress, get_serialized_for_online_notify, address_key}
use bcm_server.Push.Qos.{
  PubSub, QosEvent, QosMgr, ResendTask, alive, awaited, connected, do_schedule_resend,
  do_unschedule_resend, drop_task, forget, garbled, is_task_exists, message, on_check_user_online,
  on_message, on_redis_reconnected, on_reply, on_timeout, other, reconnected, reply, schedules,
  timeout,
}
use bcm_server.Push.QosChannel.{IsTaskOf}
use bcm_server.Push.QosInv.{Inv}
use bcm_server.Push.QosInv.{Inv}

-- An event is not the reply of this check.
abbrev pub IsOther : {N : Type 0} → Str → ℕ → QosEvent N → Type 0
IsOther chan serial (schedules addr apns_type n added) = Unit
IsOther chan serial (timeout c) = Unit
IsOther chan serial (reply c k online) = (str_eq c chan && eqb k serial) ≡ false
IsOther chan serial (message c msg) = Unit
IsOther chan serial (reconnected ok) = Unit

-- A check of a task is waited for, and the task is not there any more.
pub record Dangles {N : Type 0} (chan : Str) (serial : ℕ) (q : QosMgr N) : Type 0 where
  pub waited : awaited chan serial q.checks ≡ true
  pub gone : alive (lookup chan q.tasks) serial ≡ false
  pub older : serial < q.next_serial

awaited-forget :
    (chan c : Str) (serial k : ℕ) (cs : List (Str × ℕ))
    → (str_eq c chan && eqb k serial) ≡ false
    → awaited chan serial cs ≡ true
    → awaited chan serial (forget c k cs) ≡ true
unfolding awaited forget
awaited-forget chan c serial k [] n h = cc
awaited-forget chan c serial k ((d, j) ∷ cs) n h = ground (
  arith,
  str_eq_iff d c,
  str_eq_iff d chan,
  str_eq_iff c chan,
  awaited-forget chan c serial k cs n,
)

module _ {N : Type 0} (chan : Str) (serial : ℕ) where
  alive-insert :
      (k : Str) (t : ResendTask N) (m : Map Str (ResendTask N))
      → alive (lookup chan (insert k t m)) serial
        ≡ (if str_eq k chan then eqb t.serial serial else alive (lookup chan m) serial)
  unfolding alive
  alive-insert k t m = ground (arith, lookup-insert k chan t m)

  alive-erase :
      (k : Str) (m : Map Str (ResendTask N))
      → alive (lookup chan m) serial ≡ false
      → alive (lookup chan (erase k m)) serial ≡ false
  unfolding alive
  alive-erase k m h = ground (arith, lookup-erase k chan m)

  -- A task that takes the place of one with its serial.
  alive-replace :
      (k : Str) (t t' : ResendTask N) (m : Map Str (ResendTask N))
      → lookup k m ≡ some t
      → t'.serial ≡ t.serial
      → alive (lookup chan m) serial ≡ false
      → alive (lookup chan (insert k t' m)) serial ≡ false
  unfolding alive
  alive-replace k t t' m there same h = alive-insert k t' m ∙ elim (Bool-cases (str_eq k chan)) [
    | inl e ↦
        rw (e, same)
          (subst (λ o. alive o serial ≡ false)
            (subst (λ d. lookup d m ≡ some t) ((str_eq_iff k chan).0 e) there) h)
    | inr e ↦ rw e h
  ]

  pub do_schedule_resend-Dangles :
      (q : QosMgr N) (addr : DispatchAddress) (apns_type : Str) (n : N) (added : Bool)
      → Dangles chan serial q
      → Dangles chan serial (do_schedule_resend q addr apns_type n added)
  unfolding do_schedule_resend
  do_schedule_resend-Dangles q addr apns_type n added v =
      let k = get_serialized_for_online_notify addr in
      let fresh : ResendTask N = record {
        serial = q.next_serial;
        addr = addr;
        apns_type = apns_type;
        notification = n;
        resend_count = 0;
      } in
      elim (Option-cases (lookup k q.tasks)) [
        | inl e ↦ elim (Bool-cases added) [
          | inl y ↦
              rw (e, y, do_schedule_resend)
                (record {
                  waited = v.waited;
                  gone = ground (arith, alive-insert k fresh q.tasks, v.gone, v.older);
                  older = ground (arith, v.older);
                })
          | inr y ↦
              rw (e, y, do_schedule_resend)
                (record { waited = v.waited; gone = v.gone; older = ground (arith, v.older) })
        ]
        | inr (t, e) ↦
            rw (e, do_schedule_resend)
              (record {
                waited = v.waited;
                gone = alive-replace k t _ q.tasks e refl v.gone;
                older = v.older;
              })
      ]

  drop_task-Dangles :
      (q : QosMgr N) (c : Str) → Dangles chan serial q → Dangles chan serial (drop_task q c)
  unfolding drop_task
  drop_task-Dangles q c v = record {
    waited = v.waited;
    gone = alive-erase c q.tasks v.gone;
    older = v.older;
  }

  pub on_message-Dangles :
      (q : QosMgr N) (c : Str) (msg : PubSub)
      → Dangles chan serial q
      → Dangles chan serial (on_message q c msg)
  unfolding on_message
  on_message-Dangles q c garbled v = v
  on_message-Dangles q c other v = v
  on_message-Dangles q c connected v = elim (Bool-cases (is_some (lookup c q.tasks))) [
    | inl e ↦ rw e (drop_task-Dangles q c v)
    | inr e ↦ rw e v
  ]

  do_unschedule_resend-Dangles :
      (q : QosMgr N) (addr : DispatchAddress)
      → Dangles chan serial q
      → Dangles chan serial (do_unschedule_resend q addr)
  unfolding do_unschedule_resend
  do_unschedule_resend-Dangles q addr v =
      elim (Bool-cases (is_some (lookup (get_serialized_for_online_notify addr) q.tasks))) [
        | inl e ↦ rw (e, do_unschedule_resend) (drop_task-Dangles q _ v)
        | inr e ↦ rw (e, do_unschedule_resend) v
      ]

  pub on_timeout-Dangles :
      (q : QosMgr N) (c : Str) → Dangles chan serial q → Dangles chan serial (on_timeout q c)
  unfolding on_timeout
  on_timeout-Dangles q c v = elim (Option-cases (lookup c q.tasks)) [
    | inl e ↦ rw (e, on_timeout) v
    | inr (t, e) ↦
        rw (e, on_timeout)
          (record {
            waited = unfold awaited in ground (arith, v.waited);
            gone = v.gone;
            older = v.older;
          })
  ]

  pub on_redis_reconnected-Dangles :
      (q : QosMgr N) (ok : Bool)
      → Dangles chan serial q
      → Dangles chan serial (on_redis_reconnected q ok)
  unfolding on_redis_reconnected
  on_redis_reconnected-Dangles q true v = record {
    waited = v.waited;
    gone = v.gone;
    older = v.older;
  }
  on_redis_reconnected-Dangles q false v = v

  on_check_user_online-Dangles :
      (m : ℕ) (q : QosMgr N) (c : Str) (t : ResendTask N) (online : Bool)
      → lookup c q.tasks ≡ some t
      → get_serialized_for_online_notify t.addr ≡ c
      → Dangles chan serial q
      → Dangles chan serial (on_check_user_online m q t online).0
  unfolding on_check_user_online is_task_exists
  on_check_user_online-Dangles m q c t online there own v =
      let k = get_serialized_for_online_notify t.addr in
      let t' = record t { resend_count = t.resend_count + 1 } in
      let here : lookup k q.tasks ≡ some t = rw own there in
      let counted = record q { tasks = insert k t' q.tasks } in
      let v' : Dangles chan serial counted = record {
        waited = v.waited;
        gone = alive-replace k t t' q.tasks here refl v.gone;
        older = v.older;
      } in
      elim (Bool-cases online) [
        | inl e ↦ rw (here, e, on_check_user_online) (do_unschedule_resend-Dangles q t.addr v)
        | inr e ↦ elim (Bool-cases (leb m (t.resend_count + 1))) [
          | inl l ↦
              rw (here, e, l, on_check_user_online) (do_unschedule_resend-Dangles counted t.addr v')
          | inr l ↦ rw (here, e, l, on_check_user_online) v'
        ]
      ]

  pub on_reply-Dangles :
      (m : ℕ) (q : QosMgr N) (c : Str) (k : ℕ) (online : Bool)
      → Inv m q
      → (str_eq c chan && eqb k serial) ≡ false
      → Dangles chan serial q
      → Dangles chan serial (on_reply m q c k online).0
  unfolding on_reply alive
  on_reply-Dangles m q c k online i n v =
      let q' = record q { checks = forget c k q.checks } in
      let v' : Dangles chan serial q' = record {
        waited = awaited-forget chan c serial k q.checks n v.waited;
        gone = v.gone;
        older = v.older;
      } in
      let w' : Dangles chan serial (record q' { faulted = true }) = record {
        waited = v'.waited;
        gone = v'.gone;
        older = v'.older;
      } in
      elim (Bool-cases (awaited c k q.checks)) [
        | inr w ↦ rw w v
        | inl w ↦ elim (Option-cases (lookup c q.tasks)) [
          | inl e ↦ rw (w, e, alive) w'
          | inr (t, e) ↦ elim (Bool-cases (eqb t.serial k)) [
            | inl a ↦
                rw (w, e, alive, a, on_reply)
                  (on_check_user_online-Dangles m q' c t online e
                    (subst (IsTaskOf m q.next_serial c) e (i.sound c).1).0 v')
            | inr a ↦ rw (w, e, alive, a, on_reply) w'
          ]
        ]
      ]
