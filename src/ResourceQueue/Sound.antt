-- ===== src/ResourceQueue/Sound.antt =====
-- clientlib/resourcequeue.c: its operations keep the queue in order.
use assimilation_official.Common.{
  ℕ, ◌≡◌, refl, inl, inr, Bool, false, Option, some, List, arith, Bool-cases, Option-cases, ltb,
  is_positive,
}
use mathlib.Core.Path.{subst}
use mathlib.Core.Option.{some_inj}
use assimilation_official.ResourceQueue.{
  Name, Request, ResourceCmd, RscQElem, RscQueue, ResourceQueue, resourcequeue_new, finalize,
  drop_empty, find_custom, cmd_append,
}
use assimilation_official.ResourceQueue.Commands.{Agent, resourcecmd_constructor, resourcecmd_new}
use assimilation_official.ResourceQueue.Run.{any_elems}
use assimilation_official.ResourceQueue.Cancel.{cancelled, cmd_remove, cancel}
use assimilation_official.ResourceQueue.Queues.{queue_of-ensure_queue}
use assimilation_official.ResourceQueue.Elements.{any_serial, count_weight, runs_weight}
use assimilation_official.ResourceQueue.Names.{Located}
use assimilation_official.ResourceQueue.Appending.{
  IsCmd, appended, waiting, fresh-pushed, runs-pushed, pushed-IsTable, ensure_queue_found,
}
use assimilation_official.ResourceQueue.Ending.{located, taken, total-gone, taken-IsTable}
use assimilation_official.ResourceQueue.Found.{cancelled-find_elem}
use assimilation_official.ResourceQueue.Running.{IsSound, IsSoundFor, one, any_elems_iff}

pub resourcequeue_new-IsSound : IsSound resourcequeue_new
resourcequeue_new-IsSound = record {
  table = record { queues = tt; filled = tt; distinct = tt; once = λ s. omega arith };
  fresh = λ s l. refl;
  counted = omega arith;
  timed = λ h. refl;
}

resourcecmd_constructor-IsCmd :
    (request : Request) (cmd : ResourceCmd) → resourcecmd_constructor request ≡ some cmd → IsCmd cmd
unfolding resourcecmd_constructor
resourcecmd_constructor-IsCmd request cmd h = elim (Option-cases request.resource) [
  | inl e ↦ absurd (ground arith)
  | inr (name, e) ↦ elim (Option-cases request.operation) [
    | inl f ↦ absurd (ground arith)
    | inr (o, f) ↦ subst IsCmd (some_inj.0 (rw (e, f) at h)) (record { idle = refl; asked = refl })
  ]
]

pub resourcecmd_new-IsCmd :
    (installed : Agent → Request → Bool) (request : Request) (cmd : ResourceCmd)
    → resourcecmd_new installed request ≡ some cmd
    → IsCmd cmd
unfolding resourcecmd_new
resourcecmd_new-IsCmd installed request cmd h =
    resourcecmd_constructor-IsCmd request cmd (ground arith)

pub cmd_append-IsSound :
    (now : ℕ) (self : ResourceQueue) (cmd : ResourceCmd) (cb : Option ℕ)
    → IsSound self
    → IsCmd cmd
    → IsSound (cmd_append now self cmd cb).0
unfolding cmd_append
cmd_append-IsSound now self cmd cb s c = elim (Bool-cases (is_positive cmd.request.reqid)) [
  | inr p ↦ rw p s
  | inl p ↦ elim (Bool-cases (find_custom (waiting now self cmd cb) (appended now self cmd cb))) [
    | inl f ↦
        let same_table =
          ensure_queue_found cmd.resourcename (appended now self cmd cb) self.resources f in
        rw (p, same_table, f)
          (record {
            table = s.table;
            fresh = λ i l. s.fresh i (omega arith);
            counted = s.counted;
            timed = s.timed;
          })
    | inr f ↦
        rw (p, queue_of-ensure_queue cmd.resourcename self.resources, f)
          (record {
            table = pushed-IsTable now self cmd cb c p s.table s.fresh f;
            fresh = fresh-pushed now self cmd cb s.fresh;
            counted = omega (arith, runs-pushed now self cmd cb c, s.counted);
            timed = λ h. refl;
          })
  ]
]

pub finalize-empty :
    (p : ℕ → Bool) (self : ResourceQueue)
    → ltb 0 self.activechildcnt ≡ false
    → IsSoundFor p (finalize self)
unfolding finalize any_elems
finalize-empty p self e = rw e (record {
  table = record { queues = tt; filled = tt; distinct = tt; once = λ i. omega arith };
  fresh = λ i l. refl;
  counted = omega arith;
  timed = λ h. absurd (ground arith);
})

pub finalize-IsSound : (self : ResourceQueue) → IsSound self → IsSound (finalize self)
unfolding finalize
finalize-IsSound self s = elim (Bool-cases (ltb 0 self.activechildcnt)) [
  | inl e ↦ rw e (record { table = s.table; fresh = s.fresh; counted = s.counted; timed = s.timed })
  | inr e ↦ finalize-empty any_serial self e
]

pub cmd_remove-IsSound :
    (self : ResourceQueue) (e : RscQElem)
    → IsSound self
    → Located e.serial e self.resources
    → IsSound (cmd_remove self e)
unfolding cmd_remove
cmd_remove-IsSound self e s l =
    let name : Name = e.cmd.resourcename in
    let left : List RscQueue = taken e.serial e self.resources in
    record {
      table = taken-IsTable e.serial e self.resources l s.table;
      fresh = λ i h.
          omega (arith, total-gone e.serial e self.resources (count_weight i) l, s.fresh i h);
      counted =
          omega (arith, total-gone e.serial e self.resources (runs_weight any_serial) l, s.counted);
      timed = λ h. s.timed (
          (any_elems_iff self.resources).1 (
            omega (
              arith,
              total-gone e.serial e self.resources one l,
              (any_elems_iff (drop_empty name left)).0 h,
            )));
    }

pub cancel-IsSound :
    (self : ResourceQueue) (request : Request) → IsSound self → IsSound (cancel self request).0
unfolding cancel
cancel-IsSound self request s = elim (Bool-cases (is_positive request.reqid)) [
  | inr p ↦ rw p s
  | inl p ↦ elim (Option-cases (cancelled request self.resources)) [
    | inl x ↦ rw (p, x) s
    | inr (e, x) ↦
        let found = cancelled-find_elem request e self.resources x (s.table.once e.serial) in
        rw (p, x) (cmd_remove-IsSound self e s (located e.serial e self.resources s.table found))
  ]
]
