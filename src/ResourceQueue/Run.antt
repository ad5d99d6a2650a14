-- ===== src/ResourceQueue/Run.antt =====
-- clientlib/resourcequeue.c: starting what is due, and what follows the end of an operation.
use assimilation_official.Common.{
  ℕ, ◌+◌, ◌-◌, Bool, true, false, not, ◌&&◌, ◌||◌, Option, none, some, List, [], ◌∷◌, ltb,
  if◌then◌else◌, ℤ, leqz, equalz, to_signed, to_unsigned, ◌*◌, ◌==◌,
}
use assimilation_official.ResourceQueue.{
  RscQElem, RscQueue, ResourceQueue, HowDied, us_per_sec, on_queue, drop_empty, without, push_tail,
  finalize,
}

-- The first loop of `_resource_queue_runqueue`.
unfoldable pub any_running : List RscQElem → Bool
any_running [] = false
any_running (qe ∷ rest) = qe.cmd.is_running || any_running rest

-- `cmd->execute`, for a command that is not running: it starts now, and it runs when the child process
-- could be made, which `spawn` says.
unfoldable pub execute : (RscQElem → Bool) → ℕ → RscQElem → RscQElem
execute spawn now qe = record qe {
  cmd = record qe.cmd { starttime = ℤ.pos now; is_running = spawn qe };
}

abbrev pub is_due : ℕ → RscQElem → Bool
is_due now qe = leqz qe.cmd.starttime (ℤ.pos now)

-- The second loop of `_resource_queue_runqueue`, and the number of commands that it executes.
unfoldable pub run_first : (RscQElem → Bool) → ℕ → List RscQElem → List RscQElem × ℕ
run_first spawn now [] = ([], 0)
run_first spawn now (qe ∷ rest) =
    let later : List RscQElem × ℕ = run_first spawn now rest in
    if is_due now qe then (execute spawn now qe ∷ rest, 1) else (qe ∷ later.0, later.1)

-- One round of the loop over the table.
unfoldable pub run_one : (RscQElem → Bool) → ℕ → List RscQElem → List RscQElem × ℕ
run_one spawn now q = if any_running q then (q, 0) else run_first spawn now q

unfoldable pub run_all : (RscQElem → Bool) → ℕ → List RscQueue → List RscQueue × ℕ
run_all spawn now [] = ([], 0)
run_all spawn now (q ∷ rest) =
    let one : List RscQElem × ℕ = run_one spawn now q.elems in
    let others : List RscQueue × ℕ = run_all spawn now rest in
    (record q { elems = one.0 } ∷ others.0, one.1 + others.1)

-- `anyelems` of `_resource_queue_runqueue`
unfoldable pub any_elems : List RscQueue → Bool
any_elems [] = false
any_elems (q ∷ rest) = (elim q.elems [ [] ↦ false | e ∷ more ↦ true ]) || any_elems rest

-- `_resource_queue_runqueue`, and what it returns.
unfoldable pub runqueue : (RscQElem → Bool) → ℕ → ResourceQueue → ResourceQueue × Bool
runqueue spawn now self =
    let ran : List RscQueue × ℕ = run_all spawn now self.resources in
    let anyelems : Bool = any_elems self.resources in
    (
      record self {
        resources = ran.0;
        activechildcnt = self.activechildcnt + ran.1;
        timer = anyelems && self.timer;
      },
      anyelems,
    )

-- The element with a serial number, in the queue that it is in.
unfoldable pub find_serial : ℕ → List RscQElem → Option RscQElem
find_serial serial [] = none
find_serial serial (e ∷ rest) = if serial == e.serial then some e else find_serial serial rest

unfoldable pub find_elem : ℕ → List RscQueue → Option RscQElem
find_elem serial [] = none
find_elem serial (q ∷ rest) = elim (find_serial serial q.elems) [
  | some e ↦ some e
  | none ↦ find_elem serial rest
]

abbrev pub is_zero : HowDied → Bool
is_zero HowDied.exited_zero = true
is_zero _ = false

-- `shouldrepeat` of `_resource_queue_endnotify`
unfoldable pub should_repeat : HowDied → RscQElem → Bool
should_repeat exittype e =
    not (
      e.cancelme || (e.cancelonfail && not (is_zero exittype)) || equalz e.repeatinterval (ℤ.pos 0))

-- Whether `_resource_queue_endnotify` calls the requestor.
unfoldable pub should_notify : HowDied → RscQElem → Bool
should_notify exittype e =
    not (should_repeat exittype e)
    || (is_zero exittype && not e.cmd.last_success)
    || (not (is_zero exittype) && e.cmd.last_success)

-- The element that is queued again.
unfoldable pub requeued : ℕ → HowDied → RscQElem → RscQElem
requeued now exittype e = record e {
  queuetime = now;
  cmd = record e.cmd {
    last_success = is_zero exittype;
    starttime = to_signed 63 (now + to_unsigned 64 e.repeatinterval * us_per_sec);
  };
}

-- What a call of `_resource_queue_endnotify` leaves, and the callback that it called.
pub record Ended : Type 0 where
  pub queue : ResourceQueue
  pub called : Option ℕ

-- The last part of `_resource_queue_endnotify`.
unfoldable pub end_requeue :
    (RscQElem → Bool) → ℕ → HowDied → RscQElem → ResourceQueue → ResourceQueue
end_requeue spawn now exittype e self =
    let name : List ℕ = e.cmd.resourcename in
    let again : RscQElem = requeued now exittype e in
    if should_repeat exittype e
    then (runqueue spawn now
        (record self { resources = on_queue name (push_tail again) self.resources })).0
    else (runqueue spawn now (record self { resources = drop_empty name self.resources })).0

-- `_resource_queue_endnotify` for the element with a serial number; `none` when there is none any
-- more, and when it calls through a null callback. What the callback does to the queue is not part
-- of it.
unfoldable pub endnotify : (RscQElem → Bool) → ℕ → HowDied → ℕ → ResourceQueue → Option Ended
endnotify spawn now exittype serial self = elim (find_elem serial self.resources) [
  | none ↦ none
  | some e ↦
      let less : ResourceQueue = record self {
        resources = on_queue e.cmd.resourcename (without serial) self.resources;
        activechildcnt = self.activechildcnt - 1;
      } in
      if less.shuttingdown && not (ltb 0 less.activechildcnt)
      then some (record { queue = finalize less; called = none })
      else if should_notify exittype e
      then elim e.callback [
        | none ↦ none
        | some cb ↦
            some (record { queue = end_requeue spawn now exittype e less; called = some cb })
      ]
      else some (record { queue = end_requeue spawn now exittype e less; called = none })
]

-- The child's notification, `_resourceocf_child_notify` and the like: the command is running until
-- `_resource_queue_endnotify` has returned.
unfoldable pub stop_running : ℕ → List RscQElem → List RscQElem
stop_running serial [] = []
stop_running serial (e ∷ rest) =
    if serial == e.serial
    then record e { cmd = record e.cmd { is_running = false } } ∷ rest
    else e ∷ stop_running serial rest

unfoldable pub stop_in : ℕ → List RscQueue → List RscQueue
stop_in serial [] = []
stop_in serial (q ∷ rest) = record q { elems = stop_running serial q.elems } ∷ stop_in serial rest

unfoldable pub child_notify : (RscQElem → Bool) → ℕ → HowDied → ℕ → ResourceQueue → Option Ended
child_notify spawn now exittype serial self = elim (endnotify spawn now exittype serial self) [
  | none ↦ none
  | some ended ↦ some (record ended {
    queue = record ended.queue { resources = stop_in serial ended.queue.resources };
  })
]
