-- ===== src/Push/QosChannel.antt =====
-- src/push/apns_qos_mgr.cpp: the tasks and the subscriptions, a channel at a time.
use bcm_server.Base.{
  Bool, Bool-cases, Option, Option-cases, Str, add, ap, arith, elem, elem-add, elem-add_all,
  elem-keys, elem-remove, false, inl, inr, insert, is_some, keys, lookup, lookup-erase,
  lookup-insert, none, refl, some, str_eq, str_eq_iff, subst, suc, true, ℕ, ◌<◌, ◌∙◌, ◌≡◌, str_key,
  nat_key,
}
use bcm_server.Dispatch.Address.{DispatchAddress, get_serialized_for_online_notify, address_key}
use bcm_server.Push.Qos.{QosMgr, ResendTask, do_schedule_resend, drop_task, on_redis_reconnected}

-- A task stands under the channel of its address, has a resend left, and was made before now.
abbrev pub IsTaskOf : {N : Type 0} → ℕ → ℕ → Str → Option (ResendTask N) → Type 0
IsTaskOf max_resend_count next_serial c none = Unit
IsTaskOf max_resend_count next_serial c (some t) =
    (get_serialized_for_online_notify t.addr ≡ c)
    × (t.resend_count < max_resend_count)
    × (t.serial < next_serial)

-- What holds at each channel: it is subscribed exactly while it has a task.
abbrev pub IsSound : {N : Type 0} → ℕ → QosMgr N → Str → Type 0
IsSound max_resend_count q c =
    (elem c q.channels ≡ is_some (lookup c q.tasks))
    × IsTaskOf max_resend_count q.next_serial c (lookup c q.tasks)

IsTaskOf-suc :
    {N : Type 0} (m k : ℕ) (c : Str) (o : Option (ResendTask N))
    → IsTaskOf m k c o
    → IsTaskOf m (suc k) c o
IsTaskOf-suc m k c none h = tt
IsTaskOf-suc m k c (some t) h = (h.0, h.1, omega arith)

module _ {N : Type 0} (m : ℕ) (q : QosMgr N) (c : Str) where
  -- A task is put where there is one, or where there is none.
  pub put_known :
      (chan : Str) (t t' : ResendTask N)
      → lookup chan q.tasks ≡ some t
      → IsTaskOf m q.next_serial chan (some t')
      → IsSound m q chan
      → IsSound m q c
      → IsSound m (record q { tasks = insert chan t' q.tasks }) c
  put_known chan t t' there own s' s =
      rw (lookup-insert chan c t' q.tasks) (elim (Bool-cases (str_eq chan c)) [
        | inl e ↦ rw e (
            subst (λ d. (elem d q.channels ≡ true) × IsTaskOf m q.next_serial d (some t'))
              ((str_eq_iff chan c).0 e) (s'.0 ∙ ap is_some there, own))
        | inr e ↦ rw e s
      ])

  pub put_fresh :
      (chan : Str) (t : ResendTask N)
      → IsTaskOf m (suc q.next_serial) chan (some t)
      → IsSound m q c
      → IsSound m
          (record q {
            tasks = insert chan t q.tasks;
            channels = add chan q.channels;
            next_serial = suc q.next_serial;
          })
          c
  put_fresh chan t own s =
      rw (lookup-insert chan c t q.tasks, elem-add chan c q.channels)
        (elim (Bool-cases (str_eq chan c)) [
          | inl e ↦ rw e (
            refl,
            subst (λ d. IsTaskOf m (suc q.next_serial) d (some t)) ((str_eq_iff chan c).0 e) own,
          )
          | inr e ↦ rw e (s.0, IsTaskOf-suc m q.next_serial c (lookup c q.tasks) s.1)
        ])

  pub do_schedule_resend-IsSound :
      (addr : DispatchAddress) (apns_type : Str) (n : N) (added : Bool)
      → 0 < m
      → IsSound m q (get_serialized_for_online_notify addr)
      → IsSound m q c
      → IsSound m (do_schedule_resend q addr apns_type n added) c
  unfolding do_schedule_resend
  do_schedule_resend-IsSound addr apns_type n added h s' s =
      let chan = get_serialized_for_online_notify addr in
      elim (Option-cases (lookup chan q.tasks)) [
        | inl e ↦ elim (Bool-cases added) [
          | inl y ↦ rw (e, y, do_schedule_resend) (put_fresh chan _ (refl, h, omega arith) s)
          | inr y ↦
              rw (e, y, do_schedule_resend)
                (s.0, IsTaskOf-suc m q.next_serial c (lookup c q.tasks) s.1)
        ]
        | inr (t, e) ↦
            let own = subst (IsTaskOf m q.next_serial chan) e s'.1 in
            rw (e, do_schedule_resend) (put_known chan t _ e (own.0, h, own.2) s' s)
      ]

  pub drop_task-IsSound :
      (chan : Str) → (str_eq chan c ≡ false → IsSound m q c) → IsSound m (drop_task q chan) c
  unfolding drop_task
  drop_task-IsSound chan s =
      rw (lookup-erase chan c q.tasks, elem-remove chan c q.channels)
        (elim (Bool-cases (str_eq chan c)) [ inl e ↦ rw e (refl, tt) | inr e ↦ rw e (s e) ])

  pub on_redis_reconnected-IsSound :
      (ok : Bool) → IsSound m q c → IsSound m (on_redis_reconnected q ok) c
  unfolding on_redis_reconnected
  on_redis_reconnected-IsSound true s =
      ground (arith, elem-add_all c (keys q.tasks) q.channels, elem-keys c q.tasks)
  on_redis_reconnected-IsSound false s = s
