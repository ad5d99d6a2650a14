-- ===== src/ResourceQueue/Reached.antt =====
-- clientlib/resourcequeue.c: the states that its operations lead to, in any order.
use assimilation_official.Common.{ℕ, ◌≡◌, inl, inr, Bool, true, Option, some, Option-cases}
use assimilation_official.ResourceQueue.{
  Request, RscQElem, ResourceQueue, HowDied, resourcequeue_new, finalize,
}
use assimilation_official.ResourceQueue.Commands.{Agent, resourcecmd_new, qcmd}
use assimilation_official.ResourceQueue.Run.{find_elem, runqueue, Ended, child_notify}
use assimilation_official.ResourceQueue.Cancel.{cancel}
use assimilation_official.ResourceQueue.Elements.{any_serial}
use assimilation_official.ResourceQueue.Running.{IsSound, runqueue-IsSound}
use assimilation_official.ResourceQueue.Sound.{
  resourcequeue_new-IsSound, resourcecmd_new-IsCmd, cmd_append-IsSound, finalize-IsSound,
  cancel-IsSound,
}
use assimilation_official.ResourceQueue.Notify.{child_notify-IsSound}

-- What a sequence of operations leads to, with commands that start or fail to start at will.
pub data Reached : ResourceQueue → Type 0 where
  created : Reached resourcequeue_new
  queued :
      {self : ResourceQueue}
      → Reached self
      → (installed : Agent → Request → Bool) (now : ℕ) (request : Request) (cb : Option ℕ)
      → Reached (qcmd installed now self request cb).0
  cancelled_by :
      {self : ResourceQueue} → Reached self → (request : Request) → Reached (cancel self request).0
  timed_out :
      {self : ResourceQueue}
      → Reached self
      → (spawn : RscQElem → Bool) (now : ℕ) → Reached (runqueue spawn now self).0
  ended :
      {self : ResourceQueue} {after : Ended}
      → Reached self
      → (spawn : RscQElem → Bool) (now : ℕ) (exittype : HowDied) (serial : ℕ) (e : RscQElem)
      → find_elem serial self.resources ≡ some e
      → e.cmd.is_running ≡ true
      → child_notify spawn now exittype serial self ≡ some after
      → Reached after.queue
  finalized : {self : ResourceQueue} → Reached self → Reached (finalize self)

-- `_resource_queue_Qcmd` keeps the queue in order.
qcmd-IsSound :
    (installed : Agent → Request → Bool) (now : ℕ) (self : ResourceQueue) (request : Request)
    (cb : Option ℕ)
    → IsSound self
    → IsSound (qcmd installed now self request cb).0
unfolding qcmd
qcmd-IsSound installed now self request cb s =
    elim (Option-cases (resourcecmd_new installed request)) [
      | inl x ↦ rw (x, qcmd) s
      | inr (cmd, x) ↦
          rw (x, qcmd)
            (cmd_append-IsSound now self cmd cb s (resourcecmd_new-IsCmd installed request cmd x))
    ]

-- In every state that requests, cancellations, the timer and the ends of running commands lead to, in
-- any order: one queue for each resource, none of them empty; at most one command of a resource runs;
-- no more commands run than are counted; all requests that wait for a resource have one id; and the
-- timer is on while there is a request.
pub Reached-IsSound : (self : ResourceQueue) → Reached self → IsSound self
Reached-IsSound _ created = resourcequeue_new-IsSound
Reached-IsSound _ (queued r installed now request cb) =
    qcmd-IsSound installed now _ request cb (Reached-IsSound _ r)
Reached-IsSound _ (cancelled_by r request) = cancel-IsSound _ request (Reached-IsSound _ r)
Reached-IsSound _ (timed_out r spawn now) =
    runqueue-IsSound any_serial spawn now _ (Reached-IsSound _ r)
Reached-IsSound _ (ended r spawn now exittype serial e f x h) =
    child_notify-IsSound spawn now exittype serial e _ (Reached-IsSound _ r) f x h
Reached-IsSound _ (finalized r) = finalize-IsSound _ (Reached-IsSound _ r)
