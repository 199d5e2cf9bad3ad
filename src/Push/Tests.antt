-- ===== src/Push/Tests.antt =====
-- Runs of the models of src/push at concrete inputs.
use bcm_server.Base.{
  List, Str, [], arith, codes, elem, erase, false, insert, is_some, lookup, refl, some, true, ℕ,
  ◌+◌, ◌∷◌, ◌≡◌, ◌≤◌, str_key, nat_key,
}
use bcm_server.Dispatch.Address.{DispatchAddress, get_serialized_for_online_notify, address_key}
use bcm_server.Push.Qos.{
  QosEvent, QosMgr, ResendTask, alive, awaited, connected, do_schedule_resend, do_unschedule_resend,
  is_task_exists, message, on_reply, on_timeout, qos_run, qos_step, reply, schedules, timeout,
}
use bcm_server.Push.QosInv.{Inv, qos_step-Inv}
use bcm_server.Base.Decimal.{decimal}
use bcm_server.Push.QosFault.{late_reply-faults}
use bcm_server.Push.QosBound.{budget, left, sent_to, sent_to-le-budget}

abbrev alice : DispatchAddress
alice = record { uid = codes "a"; deviceid = 1 }

abbrev alice_chan : Str
alice_chan = codes "on:a:1"

abbrev idle : QosMgr ℕ
idle = record { tasks = []; channels = []; checks = []; next_serial = 0; faulted = false }

abbrev first_call : QosEvent ℕ
first_call = schedules alice (codes "voip") 7 true

idle-Inv : Inv 2 idle
unfolding elem lookup
idle-Inv = record { sound = λ c. (refl, tt); earlier = tt }

abbrev scheduled : QosMgr ℕ
scheduled = (qos_step 2 idle first_call).0

scheduled-Inv : Inv 2 scheduled
scheduled-Inv = qos_step-Inv 2 idle first_call (omega arith) idle-Inv

qos_step-Inv_example : Inv 2 (qos_step 2 scheduled (message alice_chan connected)).0
qos_step-Inv_example =
    qos_step-Inv 2 scheduled (message alice_chan connected) (omega arith) scheduled-Inv

-- Two rounds without the user: the task is sent twice and is gone.
abbrev two_rounds : List (QosEvent ℕ)
two_rounds =
    timeout alice_chan
    ∷ reply alice_chan 0 false
    ∷ timeout alice_chan
    ∷ reply alice_chan 0 false
    ∷ timeout alice_chan
    ∷ []

two_rounds_sent :
    (sent_to alice_chan (qos_run 2 scheduled two_rounds).1 ≡ 2)
    × (is_some (lookup alice_chan (qos_run 2 scheduled two_rounds).0.tasks) ≡ false)
unfolding sent_to qos_run qos_step do_schedule_resend lookup on_timeout on_reply insert
    get_serialized_for_online_notify decimal awaited alive is_task_exists do_unschedule_resend erase
two_rounds_sent = (refl, refl)

sent_to-le-budget_example :
    sent_to alice_chan (qos_run 2 scheduled two_rounds).1
      + left 2 (lookup alice_chan (qos_run 2 scheduled two_rounds).0.tasks)
    ≤ left 2 (lookup alice_chan scheduled.tasks) + budget 2 alice_chan two_rounds
sent_to-le-budget_example =
    sent_to-le-budget 2 alice_chan scheduled two_rounds (omega arith) scheduled-Inv

abbrev task : ResendTask ℕ
task = record {
  serial = 0;
  addr = alice;
  apns_type = codes "voip";
  notification = 7;
  resend_count = 0;
}

abbrev checked : QosMgr ℕ
checked = (qos_step 2 scheduled (timeout alice_chan)).0

checked-Inv : Inv 2 checked
checked-Inv = qos_step-Inv 2 scheduled (timeout alice_chan) (omega arith) scheduled-Inv

checked-faulted : checked.faulted ≡ false
unfolding qos_step do_schedule_resend lookup on_timeout insert get_serialized_for_online_notify
    decimal
checked-faulted = refl

checked-has : lookup alice_chan checked.tasks ≡ some task
unfolding qos_step do_schedule_resend lookup on_timeout insert get_serialized_for_online_notify
    decimal
checked-has = refl

checked-awaited : awaited alice_chan 0 checked.checks ≡ true
unfolding qos_step do_schedule_resend lookup on_timeout insert get_serialized_for_online_notify
    decimal awaited
checked-awaited = refl

late_reply-faults_example :
    (qos_run 2 checked
      (message alice_chan connected ∷ first_call ∷ reply alice_chan 0 true ∷ [])).0.faulted
    ≡ true
late_reply-faults_example =
    late_reply-faults 2 checked alice_chan task (first_call ∷ []) true (omega arith) checked-Inv
      checked-faulted checked-has checked-awaited (tt, tt)
