-- ===== src/Push/Qos.antt =====
-- src/push/apns_qos_mgr.cpp: a notification is sent again, some times, until its user comes online.
-- All of it runs on one event loop, so an event is one step. `N` is the type of notifications.
use bcm_server.Base.{
  Bool, List, Map, Option, Str, [], add, add_all, eqb, erase, false, if◌then◌else◌, insert, is_some,
  keys, leb, lookup, none, not, remove, some, str_eq, suc, true, ℕ, ◌&&◌, ◌++◌, ◌+◌, ◌||◌, ◌∷◌,
  str_key, nat_key,
}
use bcm_server.Dispatch.Address.{DispatchAddress, get_serialized_for_online_notify, address_key}

-- `ResendTask`, in the state SCHEDULED; a task is destroyed when it is canceled. `serial` tells the
-- objects that have been made for one address apart.
pub record ResendTask (N : Type 0) : Type 0 where
  pub serial : ℕ
  pub addr : DispatchAddress
  pub apns_type : Str
  pub notification : N
  pub resend_count : ℕ

-- `channels` are those that `m_conn` has been told to subscribe; `checks` are the replies that are
-- waited for, each with the task that its callback holds by `this`. `faulted` says that a callback
-- has read a task that is destroyed: what follows is undefined, and nothing is said of it.
pub record QosMgr (N : Type 0) : Type 0 where
  pub tasks : Map Str (ResendTask N)
  pub channels : List Str
  pub checks : List (Str × ℕ)
  pub next_serial : ℕ
  pub faulted : Bool

-- A message of a channel: not to be parsed, of another type, or CONNECTED.
pub data PubSub : Type 0 where
  garbled other connected : PubSub

-- What happens: a call of `scheduleResend` with what `event_add` returns, a timer, the reply of a check,
-- a message, a connection that is made again.
pub data QosEvent (N : Type 0) : Type 0 where
  schedules : DispatchAddress → Str → N → Bool → QosEvent N
  timeout : Str → QosEvent N
  reply : Str → ℕ → Bool → QosEvent N
  message : Str → PubSub → QosEvent N
  reconnected : Bool → QosEvent N

-- A call of `sendNotification`, with the channel of its task.
pub record Sent (N : Type 0) : Type 0 where
  pub chan : Str
  pub apns_type : Str
  pub notification : N

unfoldable pub forget : Str → ℕ → List (Str × ℕ) → List (Str × ℕ)
forget chan serial [] = []
forget chan serial ((c, k) ∷ cs) =
    if str_eq c chan && eqb k serial then cs else (c, k) ∷ forget chan serial cs

unfoldable pub awaited : Str → ℕ → List (Str × ℕ) → Bool
awaited chan serial [] = false
awaited chan serial ((c, k) ∷ cs) = (str_eq c chan && eqb k serial) || awaited chan serial cs

module _ {N : Type 0} where
  unfoldable pub do_schedule_resend : QosMgr N → DispatchAddress → Str → N → Bool → QosMgr N
  do_schedule_resend q addr apns_type n added =
      let chan = get_serialized_for_online_notify addr in
      let fresh : ResendTask N = record {
        serial = q.next_serial;
        addr = addr;
        apns_type = apns_type;
        notification = n;
        resend_count = 0;
      } in
      elim (lookup chan q.tasks) [
        | some t ↦ record q {
          tasks =
              insert chan (record t { apns_type = apns_type; notification = n; resend_count = 0 })
                q.tasks;
        }
        | none ↦
            if added
            then record q {
              tasks = insert chan fresh q.tasks;
              channels = add chan q.channels;
              next_serial = suc q.next_serial;
            }
            else record q { next_serial = suc q.next_serial }
      ]

  -- The task is canceled and destroyed, and its channel unsubscribed.
  unfoldable pub drop_task : QosMgr N → Str → QosMgr N
  drop_task q chan = record q { tasks = erase chan q.tasks; channels = remove chan q.channels }

  unfoldable pub do_unschedule_resend : QosMgr N → DispatchAddress → QosMgr N
  unfolding drop_task
  do_unschedule_resend q addr =
      let chan = get_serialized_for_online_notify addr in
      if is_some (lookup chan q.tasks) then drop_task q chan else q

  unfoldable pub is_task_exists : QosMgr N → DispatchAddress → Bool
  is_task_exists q addr = is_some (lookup (get_serialized_for_online_notify addr) q.tasks)

  unfoldable pub on_redis_reconnected : QosMgr N → Bool → QosMgr N
  on_redis_reconnected q ok =
      if ok then record q { channels = add_all (keys q.tasks) q.channels } else q

  unfoldable pub on_message : QosMgr N → Str → PubSub → QosMgr N
  unfolding drop_task
  on_message q chan garbled = q
  on_message q chan other = q
  on_message q chan connected = if is_some (lookup chan q.tasks) then drop_task q chan else q

  unfoldable pub on_timeout : QosMgr N → Str → QosMgr N
  on_timeout q chan = elim (lookup chan q.tasks) [
    | none ↦ q
    | some t ↦ record q { checks = (chan, t.serial) ∷ q.checks }
  ]

  -- The object that a callback holds is alive when the map still has it.
  unfoldable pub alive : Option (ResendTask N) → ℕ → Bool
  alive none serial = false
  alive (some t) serial = eqb t.serial serial

module _ {N : Type 0} (max_resend_count : ℕ) where
  -- `onCheckUserOnline` of a task that is alive.
  unfoldable pub on_check_user_online : QosMgr N → ResendTask N → Bool → QosMgr N × List (Sent N)
  on_check_user_online q t online =
      let chan = get_serialized_for_online_notify t.addr in
      let out : Sent N = record {
        chan = chan;
        apns_type = t.apns_type;
        notification = t.notification;
      } in
      let counted = record q {
        tasks = insert chan (record t { resend_count = t.resend_count + 1 }) q.tasks;
      } in
      if not (is_task_exists q t.addr)
      then (q, [])
      else (if online
          then (do_unschedule_resend q t.addr, [])
          else (if leb max_resend_count (t.resend_count + 1)
              then (do_unschedule_resend counted t.addr, out ∷ [])
              else (counted, out ∷ [])))

  -- The callback of a check, which reads the task that it holds.
  unfoldable pub on_reply : QosMgr N → Str → ℕ → Bool → QosMgr N × List (Sent N)
  unfolding on_check_user_online
  on_reply q chan serial online =
      let q' = record q { checks = forget chan serial q.checks } in
      if awaited chan serial q.checks
      then (if alive (lookup chan q.tasks) serial
          then elim (lookup chan q.tasks) [
            | none ↦ (q', [])
            | some t ↦ on_check_user_online q' t online
          ]
          else (record q' { faulted = true }, []))
      else (q, [])

  unfoldable pub handle : QosMgr N → QosEvent N → QosMgr N × List (Sent N)
  handle q (schedules addr apns_type n added) = (do_schedule_resend q addr apns_type n added, [])
  handle q (timeout chan) = (on_timeout q chan, [])
  handle q (reply chan serial online) = on_reply q chan serial online
  handle q (message chan m) = (on_message q chan m, [])
  handle q (reconnected ok) = (on_redis_reconnected q ok, [])

  unfoldable pub qos_step : QosMgr N → QosEvent N → QosMgr N × List (Sent N)
  unfolding handle
  qos_step q e = if q.faulted then (q, []) else handle q e

  unfoldable pub qos_run : QosMgr N → List (QosEvent N) → QosMgr N × List (Sent N)
  qos_run q [] = (q, [])
  qos_run q (e ∷ es) =
      let (q1, out) = qos_step q e in let (q2, outs) = qos_run q1 es in (q2, out ++ outs)
