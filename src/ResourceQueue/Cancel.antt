-- ===== src/ResourceQueue/Cancel.antt =====
-- clientlib/resourcequeue.c: the cancellation of requests.
use assimilation_official.Common.{
  ℕ, ◌+◌, ◌==◌, Bool, true, false, not, Option, none, some, List, [], ◌∷◌, if◌then◌else◌, ℤ,
  is_positive, equalz,
}
use assimilation_official.ResourceQueue.{
  Name, Request, RscQElem, RscQueue, ResourceQueue, queue_of, on_queue, drop_empty, without,
}

-- The first element of a queue with a request id.
unfoldable pub find_request : ℤ → List RscQElem → Option RscQElem
find_request requestid [] = none
find_request requestid (qe ∷ rest) =
    if equalz qe.requestid requestid then some qe else find_request requestid rest

-- The search of `_resource_queue_cancel` with no resource name, over the whole table.
unfoldable pub find_anywhere : ℤ → List RscQueue → Option RscQElem
find_anywhere requestid [] = none
find_anywhere requestid (q ∷ rest) = elim (find_request requestid q.elems) [
  | some qe ↦ some qe
  | none ↦ find_anywhere requestid rest
]

-- `_resource_queue_cmd_remove`
unfoldable pub cmd_remove : ResourceQueue → RscQElem → ResourceQueue
cmd_remove self qelem =
    let name : Name = qelem.cmd.resourcename in
    record self {
      resources = drop_empty name (on_queue name (without qelem.serial) self.resources);
    }

unfoldable pub cancelled : Request → List RscQueue → Option RscQElem
cancelled request resources = elim request.resource [
  | none ↦ find_anywhere request.reqid resources
  | some name ↦ find_request request.reqid (queue_of name resources)
]

-- `_resource_queue_cancel`
unfoldable pub cancel : ResourceQueue → Request → ResourceQueue × Bool
cancel self request =
    if not (is_positive request.reqid)
    then (self, false)
    else elim (cancelled request self.resources) [
      | none ↦ (self, false)
      | some qelem ↦ (cmd_remove self qelem, true)
    ]

-- The inner loop of `_resource_queue_cancelall`, over the elements that the queue held.
unfoldable pub cancel_each : ResourceQueue → List RscQElem → ResourceQueue
cancel_each self [] = self
cancel_each self (qe ∷ rest) = cancel_each (cancel self qe.cmd.request).0 rest

unfoldable pub table_size : List RscQueue → ℕ
table_size [] = 0
table_size (q ∷ rest) = table_size rest + 1

-- The outer loop of `_resource_queue_cancelall`: `none` where `g_hash_table_iter_next` goes on over a
-- table from which an entry was removed, which GLib leaves undefined.
unfoldable pub cancel_queues : ResourceQueue → List RscQueue → Option ResourceQueue
cancel_queues self [] = some self
cancel_queues self (q ∷ rest) =
    let after : ResourceQueue = cancel_each self q.elems in
    let others : Option ResourceQueue = cancel_queues after rest in
    if table_size after.resources == table_size self.resources then others else none

-- `_resource_queue_cancelall`
unfoldable pub cancelall : ResourceQueue → Option ResourceQueue
cancelall self = cancel_queues self self.resources
