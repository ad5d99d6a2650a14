-- ===== src/Tests/Resources.antt =====
-- clientlib/resourcequeue.c on one resource.
use assimilation_official.Common.{
  ◌≡◌, ◌≢◌, inr, arith, List, ◌++◌, ◌↔◌, refl, Bool, true, false, none, some, [], ◌∷◌, All, ℤ,
  is_positive,
}
use assimilation_official.NetAddr.{same}
use assimilation_official.ResourceQueue.{
  Name, Request, ResourceCmd, RscQElem, ResourceQueue, HowDied, resourcequeue_new, queue_of,
  qelem_new, cmd_append, ensure_queue, has_queue, on_queue, find_custom, compare_requestid,
}
use assimilation_official.ResourceQueue.Commands.{qcmd, resourcecmd_new, resourcecmd_constructor}
use assimilation_official.ResourceQueue.Run.{
  any_running, is_due, execute, run_first, run_one, run_all, runqueue, find_serial, find_elem,
  Ended, child_notify,
}
use assimilation_official.ResourceQueue.Cancel.{cancelled, find_request, cancel}
use assimilation_official.ResourceQueue.Requests.{cmd_append_iff}
use assimilation_official.ResourceQueue.Running.{IsSound}
use assimilation_official.ResourceQueue.Reached.{Reached, Reached-IsSound}
use assimilation_official.ResourceQueue.Repeating.{waiting_again, child_notify-requeued}
use assimilation_official.ResourceQueue.Progress.{runqueue_first, cancel-child_notify}

abbrev web : Name
web = 119 ∷ 101 ∷ 98 ∷ []

abbrev request : ℤ → Request
request id = record {
  classname = some (108 ∷ 115 ∷ 98 ∷ []);
  resource = some web;
  operation = some (109 ∷ []);
  reqid = id;
  repeat = ℤ.pos 10;
  initdelay = ℤ.negsuc 0;
  cancel_on_fail = none;
}

abbrev command : ℤ → ResourceCmd
command id = record {
  starttime = ℤ.pos 0;
  request = request id;
  resourcename = web;
  is_running = false;
  last_success = false;
}

abbrev starts : RscQElem → Bool
starts e = true

abbrev waiting_state : ResourceQueue
waiting_state = (qcmd (λ agent r. true) 5 resourcequeue_new (request (ℤ.pos 3)) (some 7)).0

abbrev running_state : ResourceQueue
running_state = (runqueue starts 6 waiting_state).0

abbrev monitor : RscQElem
monitor = qelem_new 5 0 (command (ℤ.pos 3)) (some 7)

waiting-Reached : Reached waiting_state
waiting-Reached = Reached.queued Reached.created (λ agent r. true) 5 (request (ℤ.pos 3)) (some 7)

running-Reached : Reached running_state
running-Reached = Reached.timed_out waiting-Reached starts 6

waiting_monitor : queue_of web waiting_state.resources ≡ monitor ∷ []
unfolding qcmd resourcecmd_new resourcecmd_constructor cmd_append ensure_queue has_queue on_queue
    find_custom queue_of same qelem_new
waiting_monitor = refl

running_monitor : find_elem 0 running_state.resources ≡ some (execute starts 6 monitor)
unfolding qcmd resourcecmd_new resourcecmd_constructor cmd_append ensure_queue has_queue on_queue
    find_custom queue_of same qelem_new runqueue run_all run_one any_running run_first execute
    find_elem find_serial
running_monitor = refl

cancels_monitor :
    cancelled (request (ℤ.pos 3)) running_state.resources ≡ some (execute starts 6 monitor)
unfolding qcmd resourcecmd_new resourcecmd_constructor cmd_append ensure_queue has_queue on_queue
    find_custom queue_of same qelem_new runqueue run_all run_one any_running run_first execute
    cancelled find_request
cancels_monitor = refl

still_up : running_state.shuttingdown ≡ false
unfolding qcmd resourcecmd_new resourcecmd_constructor cmd_append ensure_queue has_queue on_queue
    find_custom queue_of same qelem_new runqueue
still_up = refl

monitor_idle : any_running (monitor ∷ []) ≡ false
unfolding any_running qelem_new
monitor_idle = refl

monitor_due : is_due 6 monitor ≡ true
unfolding qelem_new
monitor_due = refl

monitor_executes : (execute starts 6 monitor).cmd.is_running ≡ true
unfolding execute
monitor_executes = refl

monitor_called : (execute starts 6 monitor).callback ≡ some 7
unfolding execute qelem_new
monitor_called = refl

-- A request with another id for the same resource is refused.
refuses_another : (cmd_append 9 waiting_state (command (ℤ.pos 4)) none).1 ≡ false
unfolding qcmd resourcecmd_new resourcecmd_constructor cmd_append ensure_queue has_queue on_queue
    find_custom queue_of same qelem_new compare_requestid
refuses_another = refl

Reached-IsSound_example : IsSound running_state
Reached-IsSound_example = Reached-IsSound running_state running-Reached

cmd_append_iff_example : ((cmd_append 9 waiting_state (command (ℤ.pos 3)) none).1 ≡ true) ↔ (
    (is_positive (ℤ.pos 3) ≡ true)
    × All (λ e. e.requestid ≡ ℤ.pos 3) (queue_of web waiting_state.resources))
cmd_append_iff_example = cmd_append_iff 9 waiting_state (command (ℤ.pos 3)) none

runqueue_first_example :
    queue_of web (runqueue starts 6 waiting_state).0.resources ≡ execute starts 6 monitor ∷ []
runqueue_first_example =
    runqueue_first starts 6 waiting_state web [] monitor [] waiting_monitor monitor_idle tt
      monitor_due

cancel-child_notify_example :
    child_notify starts 8 HowDied.exited_zero
      (execute starts 6 monitor).serial
      (cancel running_state (request (ℤ.pos 3))).0
    ≡ none
cancel-child_notify_example =
    cancel-child_notify running_state (request (ℤ.pos 3)) (execute starts 6 monitor) starts 8
      HowDied.exited_zero running-Reached refl cancels_monitor

-- The monitor as it runs.
abbrev running : RscQElem
running = execute starts 6 monitor

repeats_every_ten : running.repeatinterval ≡ ℤ.pos 10
unfolding execute qelem_new
repeats_every_ten = refl

not_cancelled : running.cancelme ≡ false
unfolding execute qelem_new
not_cancelled = refl

child_notify-requeued_example :
    (after : Ended) × (before : List RscQElem) × (rest : List RscQElem) × (child_notify starts 8
        HowDied.exited_zero 0 running_state
      ≡ some after)
    × (queue_of running.cmd.resourcename running_state.resources ≡ before ++ running ∷ rest)
    × (queue_of running.cmd.resourcename after.queue.resources
        ≡ (before ++ rest) ++ waiting_again 8 true 10 running ∷ [])
    × (true ≡ running.cmd.last_success → after.called ≡ none)
    × (true ≢ running.cmd.last_success → after.called ≡ some 7)
child_notify-requeued_example =
    child_notify-requeued starts 8 HowDied.exited_zero 0 running running_state 7 true 10
      running-Reached running_monitor monitor_executes still_up monitor_called
      (λ h. refl, λ h. refl) repeats_every_ten (omega arith) (omega arith) not_cancelled (inr refl)
