-- ===== src/ResourceQueue.antt =====
-- clientlib/resourcequeue.c and the constructor of clientlib/resourcecmd.c: requests for operations on
-- resources, a queue for each resource. A serial number stands for the pointer to an element. The
-- hash table of queues is a list of pairs; an element's `ourQ` is the queue under its resource's name.
pub mod Commands
pub mod Run
pub mod Cancel
pub mod Queues
pub mod Elements
pub mod Names
pub mod Tables
pub mod Appending
pub mod Ending
pub mod Requests
pub mod Found
pub mod Running
pub mod Sound
pub mod Notify
pub mod Reached
pub mod Progress
pub mod Repeating
use assimilation_official.Common.{
  ℕ, ◌+◌, ◌*◌, ◌^◌, ◌%◌, Bool, true, false, not, ◌||◌, Option, none, some, List, [], ◌∷◌, ◌++◌,
  ◌==◌, ltb, if◌then◌else◌, ℤ, is_positive, positive_part, equalz, to_signed, to_unsigned,
}
use assimilation_official.NetAddr.{same}

abbrev pub Name : Type 0
Name = List ℕ

-- What is read of the ConfigContext of a request: `reqid`, `repeat` and `initdelay` are what getint
-- says of a missing field too, and `cancel_on_fail` is `none` unless the field is a Boolean.
pub record Request : Type 0 where
  pub classname : Option Name
  pub resource : Option Name
  pub operation : Option Name
  pub reqid : ℤ
  pub repeat : ℤ
  pub initdelay : ℤ
  pub cancel_on_fail : Option Bool

-- `enum HowDied` of include/childprocess.h.
pub data HowDied : Type 0 where
  not_exited : HowDied
  exited_zero : HowDied
  exited_nonzero : HowDied
  exited_signal : HowDied
  exited_timeout : HowDied
  exited_hung : HowDied
  exited_inval : HowDied

-- `struct _ResourceCmd`, without what only the execution and the logging use.
pub record ResourceCmd : Type 0 where
  pub starttime : ℤ
  pub request : Request
  pub resourcename : Name
  pub is_running : Bool
  pub last_success : Bool

-- `struct _RscQElem`; a callback is known by a number, `none` is NULL.
pub record RscQElem : Type 0 where
  pub serial : ℕ
  pub queuetime : ℕ
  pub cmd : ResourceCmd
  pub callback : Option ℕ
  pub repeatinterval : ℤ
  pub cancelonfail : Bool
  pub requestid : ℤ
  pub cancelme : Bool

pub record RscQueue : Type 0 where
  pub name : Name
  pub elems : List RscQElem

-- `struct _ResourceQueue`; `timer` says that `timerid` is not -1, and `next_serial` is the pointer that
-- the allocator gives out next.
pub record ResourceQueue : Type 0 where
  pub resources : List RscQueue
  pub timer : Bool
  pub activechildcnt : ℕ
  pub shuttingdown : Bool
  pub next_serial : ℕ

abbrev pub us_per_sec : ℕ
us_per_sec = 1000000

-- `resourcequeue_new`
abbrev pub resourcequeue_new : ResourceQueue
resourcequeue_new = record {
  resources = [];
  timer = true;
  activechildcnt = 0;
  shuttingdown = false;
  next_serial = 0;
}

-- `_resource_queue_finalize`
unfoldable pub finalize : ResourceQueue → ResourceQueue
finalize self =
    if ltb 0 self.activechildcnt
    then record self { shuttingdown = true }
    else record self { shuttingdown = true; resources = []; timer = false }

-- `g_hash_table_lookup`, for the elements of the queue; there are none where there is no queue.
unfoldable pub queue_of : Name → List RscQueue → List RscQElem
queue_of name [] = []
queue_of name (q ∷ rest) = if same name q.name then q.elems else queue_of name rest

unfoldable pub has_queue : Name → List RscQueue → Bool
has_queue name [] = false
has_queue name (q ∷ rest) = same name q.name || has_queue name rest

-- A change to the queue of a resource.
unfoldable pub on_queue : Name → (List RscQElem → List RscQElem) → List RscQueue → List RscQueue
on_queue name f [] = []
on_queue name f (q ∷ rest) =
    if same name q.name then record q { elems = f q.elems } ∷ rest else q ∷ on_queue name f rest

-- `g_hash_table_remove` of a resource whose queue is empty.
unfoldable pub drop_empty : Name → List RscQueue → List RscQueue
drop_empty name [] = []
drop_empty name (q ∷ rest) =
    if same name q.name
    then (elim q.elems [ [] ↦ rest | e ∷ more ↦ q ∷ rest ])
    else q ∷ drop_empty name rest

-- `g_queue_push_tail` and `g_queue_remove`
abbrev pub push_tail : RscQElem → List RscQElem → List RscQElem
push_tail e q = q ++ e ∷ []

unfoldable pub without : ℕ → List RscQElem → List RscQElem
without serial [] = []
without serial (e ∷ rest) = if serial == e.serial then rest else e ∷ without serial rest

-- A delay of whole seconds from a time on, in the unsigned arithmetic of `uSPERSEC`.
abbrev pub after_seconds : ℕ → ℕ → ℤ
after_seconds time seconds = to_signed 63 (time + seconds * us_per_sec)

-- `_resource_queue_qelem_new`; the element's requestid is set by the caller.
unfoldable pub qelem_new : ℕ → ℕ → ResourceCmd → Option ℕ → RscQElem
qelem_new now serial cmd callback = record {
  serial = serial;
  queuetime = now;
  cmd = record cmd { starttime = after_seconds now (positive_part cmd.request.initdelay) };
  callback = callback;
  repeatinterval = to_signed 31 (positive_part cmd.request.repeat);
  cancelonfail = elim cmd.request.cancel_on_fail [ none ↦ false | some b ↦ b ];
  requestid = cmd.request.reqid;
  cancelme = false;
}

-- `_queue_compare_requestid`, and `g_queue_find_custom`, which stops where the comparison says 0.
unfoldable pub compare_requestid : RscQElem → RscQElem → ℕ
compare_requestid a b = if equalz a.requestid b.requestid then 1 else 0

unfoldable pub find_custom : List RscQElem → RscQElem → Bool
find_custom [] qelem = false
find_custom (e ∷ rest) qelem = compare_requestid e qelem == 0 || find_custom rest qelem

-- The queue of a resource is made when it is missing.
unfoldable pub ensure_queue : Name → List RscQueue → List RscQueue
ensure_queue name resources =
    if has_queue name resources then resources else record { name = name; elems = [] } ∷ resources

-- `_resource_queue_cmd_append`
unfoldable pub cmd_append : ℕ → ResourceQueue → ResourceCmd → Option ℕ → ResourceQueue × Bool
cmd_append now self cmd cb =
    let name : Name = cmd.resourcename in
    let resources : List RscQueue = ensure_queue name self.resources in
    let qelem : RscQElem = qelem_new now self.next_serial cmd cb in
    if not (is_positive cmd.request.reqid)
    then (self, false)
    else if find_custom (queue_of name resources) qelem
    then (record self { resources = resources; next_serial = self.next_serial + 1 }, false)
    else (
      record self {
        resources = on_queue name (push_tail qelem) resources;
        next_serial = self.next_serial + 1;
        timer = true;
      },
      true,
    )
