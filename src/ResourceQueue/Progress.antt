-- ===== src/ResourceQueue/Progress.antt =====
-- clientlib/resourcequeue.c: what is started next, what becomes of a request when its command ends,
-- and what a cancellation leaves behind.
use assimilation_official.Common.{
  ℕ, ◌-◌, ◌≡◌, refl, inl, inr, Bool, true, false, Option, none, some, List, [], ◌∷◌, ◌++◌, arith,
  All, Bool-cases, sym, ◌∙◌, ap, is_positive, ◌==◌, if◌then◌else◌,
}
use mathlib.Core.Path.{subst}
use assimilation_official.NetAddr.{same}
use assimilation_official.ResourceQueue.{
  Name, Request, RscQElem, RscQueue, ResourceQueue, HowDied, queue_of, has_queue, on_queue,
  drop_empty, without, push_tail,
}
use assimilation_official.ResourceQueue.Run.{
  any_running, is_due, execute, run_first, run_one, run_all, runqueue, find_elem, requeued,
  should_repeat, should_notify, end_requeue, Ended, endnotify, child_notify, stop_running, stop_in,
}
use assimilation_official.ResourceQueue.Cancel.{cancelled, cmd_remove, cancel}
use assimilation_official.ResourceQueue.Queues.{total, total_part}
use assimilation_official.ResourceQueue.Elements.{count, count_weight, sum-without}
use assimilation_official.ResourceQueue.Tables.{on_queue-on_queue}
use assimilation_official.ResourceQueue.Ending.{located, taken, total-gone}
use assimilation_official.ResourceQueue.Found.{find_elem-none, cancelled-find_elem}
use assimilation_official.ResourceQueue.Running.{IsSound}
use assimilation_official.ResourceQueue.Notify.{find_serial_lem}
use assimilation_official.ResourceQueue.Reached.{Reached, Reached-IsSound}

queue_of-run_all :
    (spawn : RscQElem → Bool) (now : ℕ) (name : Name) (t : List RscQueue)
    → queue_of name (run_all spawn now t).0 ≡ (run_one spawn now (queue_of name t)).0
unfolding queue_of run_all run_one run_first any_running
queue_of-run_all spawn now name [] = refl
queue_of-run_all spawn now name (q ∷ t) = elim (Bool-cases (same name q.name)) [
  | inl e ↦ rw e refl
  | inr e ↦ rw e (queue_of-run_all spawn now name t)
]

run_first_due :
    (spawn : RscQElem → Bool) (now : ℕ) (before : List RscQElem) (e : RscQElem)
    (after : List RscQElem)
    → All (λ f. is_due now f ≡ false) before
    → is_due now e ≡ true
    → (run_first spawn now (before ++ e ∷ after)).0 ≡ before ++ execute spawn now e ∷ after
unfolding run_first
run_first_due spawn now [] e after h d = rw d refl
run_first_due spawn now (f ∷ before) e after h d =
    rw h.0 (ap (λ l. f ∷ l) (run_first_due spawn now before e after h.1 d))

-- When no command of a resource runs, the timer starts the first of its requests that is due, and
-- leaves the others as they are.
pub runqueue_first :
    (spawn : RscQElem → Bool) (now : ℕ) (self : ResourceQueue) (name : Name)
    (before : List RscQElem) (e : RscQElem) (after : List RscQElem)
    → queue_of name self.resources ≡ before ++ e ∷ after
    → any_running (before ++ e ∷ after) ≡ false
    → All (λ f. is_due now f ≡ false) before
    → is_due now e ≡ true
    → queue_of name (runqueue spawn now self).0.resources ≡ before ++ execute spawn now e ∷ after
unfolding runqueue run_one
runqueue_first spawn now self name before e after q idle h d =
    queue_of-run_all spawn now name self.resources
    ∙ rw (q, idle) (run_first_due spawn now before e after h d)

child_notify-none :
    (spawn : RscQElem → Bool) (now : ℕ) (exittype : HowDied) (serial : ℕ) (self : ResourceQueue)
    → find_elem serial self.resources ≡ none
    → child_notify spawn now exittype serial self ≡ none
unfolding child_notify endnotify
child_notify-none spawn now exittype serial self h = rw (h, child_notify, endnotify) refl

-- After a request of a reached state was cancelled, the end of its command, which may still be
-- running, goes through an element that is no longer there.
pub cancel-child_notify :
    (self : ResourceQueue) (request : Request) (e : RscQElem) (spawn : RscQElem → Bool) (now : ℕ)
    (exittype : HowDied)
    → Reached self
    → is_positive request.reqid ≡ true
    → cancelled request self.resources ≡ some e
    → child_notify spawn now exittype e.serial (cancel self request).0 ≡ none
unfolding cancel cmd_remove
cancel-child_notify self request e spawn now exittype r p c =
    let s = Reached-IsSound self r in
    let t : List RscQueue = self.resources in
    let found = cancelled-find_elem request e t c (s.table.once e.serial) in
    let l = located e.serial e t s.table found in
    let weight : count_weight e.serial e ≡ 1 = ground arith in
    let gone : total (count e.serial) (drop_empty e.cmd.resourcename (taken e.serial e t)) ≡ 0 =
      omega
        (arith, total-gone e.serial e t (count_weight e.serial) l, s.table.once e.serial, weight) in
    let after : (cancel self request).0 ≡ cmd_remove self e = rw (p, c) refl in
    subst (λ q. child_notify spawn now exittype e.serial q ≡ none) (sym after)
      (child_notify-none spawn now exittype e.serial (cmd_remove self e)
        (find_elem-none e.serial (drop_empty e.cmd.resourcename (taken e.serial e t)) gone))

queue_of-on_queue :
    (name : Name) (f : List RscQElem → List RscQElem) (t : List RscQueue)
    → has_queue name t ≡ true
    → queue_of name (on_queue name f t) ≡ f (queue_of name t)
unfolding queue_of on_queue has_queue
queue_of-on_queue name f [] h = absurd (ground arith)
queue_of-on_queue name f (q ∷ t) h = elim (Bool-cases (same name q.name)) [
  | inl e ↦ rw (e, e) refl
  | inr e ↦ rw (e, e) (queue_of-on_queue name f t (ground arith))
]

queue_of-stop_in :
    (serial : ℕ) (name : Name) (t : List RscQueue)
    → queue_of name (stop_in serial t) ≡ stop_running serial (queue_of name t)
unfolding queue_of stop_in stop_running
queue_of-stop_in serial name [] = refl
queue_of-stop_in serial name (q ∷ t) = elim (Bool-cases (same name q.name)) [
  | inl e ↦ rw e refl
  | inr e ↦ rw e (queue_of-stop_in serial name t)
]

abbrev pub stopped : RscQElem → RscQElem
stopped e = record e { cmd = record e.cmd { is_running = false } }

stop_last :
    (again : RscQElem) (q : List RscQElem)
    → count again.serial q ≡ 0
    → stop_running again.serial (push_tail again q) ≡ push_tail (stopped again) q
unfolding stop_running
stop_last again [] h =
    let here : (again.serial == again.serial) ≡ true = ground arith in rw here refl
stop_last again (f ∷ q) h =
    let other : (again.serial == f.serial) ≡ false = ground arith in
    rw other (ap (λ l. f ∷ l) (stop_last again q (ground arith)))

push_tail_runs :
    (again : RscQElem) (q : List RscQElem)
    → again.cmd.is_running ≡ true
    → any_running (push_tail again q) ≡ true
unfolding any_running
push_tail_runs again [] h = ground arith
push_tail_runs again (f ∷ q) h = ground (arith, push_tail_runs again q h)

module _ (spawn : RscQElem → Bool) (now : ℕ) (exittype : HowDied) (serial : ℕ) (e : RscQElem)
    (self : ResourceQueue) where
  abbrev less : ResourceQueue
  less = record self {
    resources = taken serial e self.resources;
    activechildcnt = self.activechildcnt - 1;
  }

  abbrev result : Option ℕ → Ended
  result called = record { queue = end_requeue spawn now exittype e less; called = called }

  endnotify-result :
      (cb : ℕ)
      → find_elem serial self.resources ≡ some e
      → self.shuttingdown ≡ false
      → e.callback ≡ some cb
      → endnotify spawn now exittype serial self
        ≡ some (result (if should_notify exittype e then some cb else none))
  unfolding endnotify
  endnotify-result cb f s c = elim (Bool-cases (should_notify exittype e)) [
    | inl x ↦ simp (f, endnotify, s, x, c) refl
    | inr x ↦ simp (f, endnotify, s, x) refl
  ]

  abbrev again : RscQElem
  again = requeued now exittype e

  abbrev old : List RscQElem
  old = queue_of e.cmd.resourcename self.resources

  abbrev requeue : List RscQElem → List RscQElem
  requeue q = push_tail again (without serial q)

  end_requeue_table :
      should_repeat exittype e ≡ true
      → (end_requeue spawn now exittype e less).resources
        ≡ (run_all spawn now (on_queue e.cmd.resourcename requeue self.resources)).0
  unfolding end_requeue runqueue
  end_requeue_table x =
      rw (x, on_queue-on_queue e.cmd.resourcename (without serial) (push_tail again) self.resources)
        refl

  not_restarted : e.cmd.is_running ≡ true → (run_one spawn now (requeue old)).0 ≡ requeue old
  unfolding run_one requeued
  not_restarted r = rw (push_tail_runs again (without serial old) r) refl

  stopped_last :
      serial ≡ e.serial
      → count serial (without serial old) ≡ 0
      → stop_running serial (requeue old) ≡ push_tail (stopped again) (without serial old)
  unfolding requeued
  stopped_last s c =
      subst
        (λ n.
          count n (without serial old) ≡ 0
          → stop_running n (requeue old) ≡ push_tail (stopped again) (without serial old))
        (sym s) (stop_last again (without serial old)) c

  requeued_last :
      IsSound self
      → find_elem serial self.resources ≡ some e
      → e.cmd.is_running ≡ true
      → should_repeat exittype e ≡ true
      → queue_of e.cmd.resourcename
          (stop_in serial (end_requeue spawn now exittype e less).resources)
        ≡ push_tail (stopped again) (without serial old)
  requeued_last s f r x =
      let name : Name = e.cmd.resourcename in
      let t : List RscQueue = self.resources in
      let l = located serial e t s.table f in
      let serial_e = find_serial_lem serial e old l.inside in
      let weight : count_weight serial e ≡ 1 = ground arith in
      let none_left : count serial (without serial old) ≡ 0 = omega (
        arith,
        sum-without (count_weight serial) serial e old l.inside,
        total_part (count serial) name t refl,
        s.table.once serial,
        weight,
      ) in
      let table : List RscQueue = on_queue name requeue t in
      ap (λ r. queue_of name (stop_in serial r)) (end_requeue_table x)
      ∙ queue_of-stop_in serial name (run_all spawn now table).0
      ∙ ap (stop_running serial) (
          queue_of-run_all spawn now name table
          ∙ ap (λ q. (run_one spawn now q).0) (queue_of-on_queue name requeue t l.there)
          ∙ not_restarted r)
      ∙ stopped_last serial_e none_left

  -- What the end of a running command that is to be repeated leaves, and what it calls.
  pub child_notify-result :
      (cb : ℕ)
      → Reached self
      → find_elem serial self.resources ≡ some e
      → e.cmd.is_running ≡ true
      → self.shuttingdown ≡ false
      → e.callback ≡ some cb
      → should_repeat exittype e ≡ true
      → (after : Ended) × (child_notify spawn now exittype serial self ≡ some after)
        × (after.called ≡ (if should_notify exittype e then some cb else none))
        × (queue_of e.cmd.resourcename after.queue.resources
            ≡ push_tail (stopped again) (without serial old))
  unfolding child_notify
  child_notify-result cb r f run s c x =
      let called : Option ℕ = if should_notify exittype e then some cb else none in
      let ended : Ended = result called in
      (
        record ended {
          queue = record ended.queue { resources = stop_in serial ended.queue.resources };
        },
        rw (endnotify-result cb f s c, child_notify) refl,
        refl,
        requeued_last (Reached-IsSound self r) f run x,
      )
