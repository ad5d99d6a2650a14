-- ===== src/ResourceQueue/Commands.antt =====
-- clientlib/resourcecmd.c: the factory of resource commands; and `_resource_queue_Qcmd` of
-- clientlib/resourcequeue.c, which queues what it makes.
use assimilation_official.Common.{ℕ, Bool, false, Option, none, some, [], ◌∷◌, if◌then◌else◌, ℤ}
use assimilation_official.NetAddr.{same}
use assimilation_official.ResourceQueue.{
  Name, Request, ResourceCmd, ResourceQueue, HowDied, cmd_append,
}

-- The classes of resource agents that `resourcecmd_new` knows.
pub data Agent : Type 0 where
  ocf : Agent
  lsb : Agent
  nagios : Agent

abbrev agent_of : Name → Option Agent
agent_of cname =
    if same cname (111 ∷ 99 ∷ 102 ∷ [])
    then some Agent.ocf
    else if same cname (108 ∷ 115 ∷ 98 ∷ [])
    then some Agent.lsb
    else if same cname (110 ∷ 97 ∷ 103 ∷ 105 ∷ 111 ∷ 115 ∷ [])
    then some Agent.nagios
    else none

-- `resourcecmd_constructor`
unfoldable pub resourcecmd_constructor : Request → Option ResourceCmd
resourcecmd_constructor request = elim request.resource [
  | none ↦ none
  | some rscname ↦ elim request.operation [
    | none ↦ none
    | some operation ↦ some (record {
      starttime = ℤ.pos 0;
      request = request;
      resourcename = rscname;
      is_running = false;
      last_success = false;
    })
  ]
]

-- `resourcecmd_new`; `installed` is what the constructor of the agent's class checks, the agent's
-- own fields and files, before it calls `resourcecmd_constructor`.
unfoldable pub resourcecmd_new : (Agent → Request → Bool) → Request → Option ResourceCmd
resourcecmd_new installed request = elim request.classname [
  | none ↦ none
  | some cname ↦ elim (agent_of cname) [
    | none ↦ none
    | some agent ↦ if installed agent request then resourcecmd_constructor request else none
  ]
]

-- `_resource_queue_Qcmd`, with the call of the callback that it makes.
unfoldable pub qcmd :
    (Agent → Request → Bool)
    → ℕ
    → ResourceQueue
    → Request
    → Option ℕ
    → ResourceQueue × Bool × Option (ℕ × HowDied)
qcmd installed now self request callback = elim (resourcecmd_new installed request) [
  | none ↦ (self, false, elim callback [ none ↦ none | some cb ↦ some (cb, HowDied.exited_inval) ])
  | some cmd ↦
      let appended : ResourceQueue × Bool = cmd_append now self cmd callback in
      (appended.0, appended.1, none)
]
