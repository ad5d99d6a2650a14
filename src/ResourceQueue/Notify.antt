-- ===== src/ResourceQueue/Notify.antt =====
-- clientlib/resourcequeue.c: `_resource_queue_endnotify` keeps the queue in order.
use assimilation_official.Common.{
  ℕ, ◌+◌, ◌-◌, ◌≡◌, ◌≤◌, refl, inl, inr, Bool, true, not, some, List, [], ◌∷◌, ◌&&◌, arith,
  Bool-cases, Option-cases, ltb, ◌==◌,
}
use mathlib.Core.Path.{subst}
use mathlib.Core.Option.{some_inj}
use assimilation_official.ResourceQueue.{
  RscQElem, RscQueue, ResourceQueue, HowDied, queue_of, drop_empty, without, push_tail,
}
use assimilation_official.ResourceQueue.Run.{
  find_serial, find_elem, requeued, should_repeat, should_notify, end_requeue, Ended, endnotify,
  child_notify,
}
use assimilation_official.ResourceQueue.Queues.{total}
use assimilation_official.ResourceQueue.Elements.{runs, any_serial, but, count_weight, runs_weight}
use assimilation_official.ResourceQueue.Names.{Located}
use assimilation_official.ResourceQueue.Tables.{on_queue-on_queue}
use assimilation_official.ResourceQueue.Ending.{
  located, taken, moved, total-gone, total-taken, total-moved, taken-IsTable, moved-IsTable,
}
use assimilation_official.ResourceQueue.Sound.{finalize-empty}
use assimilation_official.ResourceQueue.Running.{
  IsSound, IsSoundFor, stopped-IsSound, runqueue-IsSound, one, any_elems_iff,
}

pub find_serial_lem :
    (s : ℕ) (e : RscQElem) (q : List RscQElem) → find_serial s q ≡ some e → s ≡ e.serial
unfolding find_serial
find_serial_lem s e [] h = absurd (ground arith)
find_serial_lem s e (f ∷ q) h = elim (Bool-cases (s == f.serial)) [
  | inl x ↦
      let same_one : f ≡ e = some_inj.0 (rw x at h) in
      subst (λ g. s ≡ g.serial) same_one (ground arith)
  | inr x ↦ find_serial_lem s e q (rw x at h)
]

runs_mono_queue : (serial : ℕ) (q : List RscQElem) → runs (but serial) q ≤ runs any_serial q
runs_mono_queue serial [] = omega arith
runs_mono_queue serial (e ∷ q) = ground (arith, runs_mono_queue serial q)

runs_mono :
    (serial : ℕ) (t : List RscQueue) → total (runs (but serial)) t ≤ total (runs any_serial) t
runs_mono serial [] = omega arith
runs_mono serial (q ∷ t) = omega (arith, runs_mono_queue serial q.elems, runs_mono serial t)

-- The state when the element of a command that ends has left its queue.
module _ (serial : ℕ) (e : RscQElem) (self : ResourceQueue) where
  record Ending : Type 0 where
    sound : IsSound self
    found : find_elem serial self.resources ≡ some e
    running : e.cmd.is_running ≡ true

  gone_weight : Located serial e self.resources → runs_weight (but serial) e ≡ 0
  gone_weight l =
      ground (arith, find_serial_lem serial e (queue_of e.cmd.resourcename self.resources) l.inside)

  one_less : Ending → total (runs (but serial)) self.resources + 1 ≤ self.activechildcnt
  one_less s =
      let l = located serial e self.resources s.sound.table s.found in
      let weight : runs_weight any_serial e ≡ 1 = rw s.running refl in
      omega (
        arith,
        total-taken serial e self.resources (runs_weight any_serial) l,
        total-taken serial e self.resources (runs_weight (but serial)) l,
        runs_mono serial (taken serial e self.resources),
        gone_weight l,
        weight,
        s.sound.counted,
      )

  abbrev left : ResourceQueue
  left = record self {
    resources = taken serial e self.resources;
    activechildcnt = self.activechildcnt - 1;
  }

  gone-IsSound :
      Ending
      → IsSoundFor (but serial) (record left {
        resources = drop_empty e.cmd.resourcename (taken serial e self.resources);
      })
  gone-IsSound s =
      let t : List RscQueue = self.resources in
      let l = located serial e t s.sound.table s.found in
      record {
        table = taken-IsTable serial e t l s.sound.table;
        fresh = λ i h. omega (arith, total-gone serial e t (count_weight i) l, s.sound.fresh i h);
        counted =
            omega (
              arith,
              total-gone serial e t (runs_weight (but serial)) l,
              gone_weight l,
              one_less s,
            );
        timed = λ h. s.sound.timed (
            (any_elems_iff t).1 (
              omega (
                arith,
                total-gone serial e t one l,
                (any_elems_iff (drop_empty e.cmd.resourcename (taken serial e t))).0 h,
              )));
      }

  moved-IsSound :
      (now : ℕ) (exittype : HowDied)
      → Ending
      → IsSoundFor
          (but serial)
          (record left { resources = moved serial e (requeued now exittype e) self.resources })
  unfolding requeued
  moved-IsSound now exittype s =
      let t : List RscQueue = self.resources in
      let again : RscQElem = requeued now exittype e in
      let l = located serial e t s.sound.table s.found in
      let weight = gone_weight l in
      record {
        table = moved-IsTable serial e again t l s.sound.table refl refl (λ name id x. record {
          named = x.named;
          asked = x.asked;
          ident = x.ident;
          request = x.request;
          positive = x.positive;
        });
        fresh = λ i h.
            omega (arith, total-moved serial e again t (count_weight i) l, s.sound.fresh i h);
        counted =
            omega (
              arith,
              total-moved serial e again t (runs_weight (but serial)) l,
              weight,
              one_less s,
            );
        timed = λ h. s.sound.timed (
            (any_elems_iff t).1 (
              omega (
                arith,
                total-moved serial e again t one l,
                (any_elems_iff (moved serial e again t)).0 h,
              )));
      }

  end_requeue-IsSound :
      (spawn : RscQElem → Bool) (now : ℕ) (exittype : HowDied)
      → Ending
      → IsSoundFor (but serial) (end_requeue spawn now exittype e left)
  unfolding end_requeue
  end_requeue-IsSound spawn now exittype s = elim (Bool-cases (should_repeat exittype e)) [
    | inl x ↦
        rw
          (
            x,
            on_queue-on_queue e.cmd.resourcename (without serial)
                (push_tail (requeued now exittype e)) self.resources,
          )
          (runqueue-IsSound (but serial) spawn now _ (moved-IsSound now exittype s))
    | inr x ↦ rw x (runqueue-IsSound (but serial) spawn now _ (gone-IsSound s))
  ]

  endnotify-IsSound :
      (spawn : RscQElem → Bool) (now : ℕ) (exittype : HowDied) {after : Ended}
      → Ending
      → endnotify spawn now exittype serial self ≡ some after
      → IsSoundFor (but serial) after.queue
  unfolding endnotify
  endnotify-IsSound spawn now exittype {after} s h =
      let k = rw (s.found, endnotify) at h in
      let done : IsSoundFor (but serial) (end_requeue spawn now exittype e left) =
        end_requeue-IsSound spawn now exittype s in
      let is : Ended → Type 0 = λ a. IsSoundFor (but serial) a.queue in
      elim (Bool-cases (left.shuttingdown && not (ltb 0 left.activechildcnt))) [
        | inl x ↦
            subst is (some_inj.0 (rw x at k)) (finalize-empty (but serial) left (ground arith))
        | inr x ↦ elim (Bool-cases (should_notify exittype e)) [
          | inr y ↦ subst is (some_inj.0 (rw (x, y) at k)) done
          | inl y ↦ elim (Option-cases e.callback) [
            | inl z ↦ absurd (ground arith)
            | inr (cb, z) ↦ subst is (some_inj.0 (rw (x, y, z) at k)) done
          ]
        ]
      ]

-- The end of a running command, up to the moment when its child's notification returns.
pub child_notify-IsSound :
    (spawn : RscQElem → Bool) (now : ℕ) (exittype : HowDied) (serial : ℕ) (e : RscQElem)
    (self : ResourceQueue) {after : Ended}
    → IsSound self
    → find_elem serial self.resources ≡ some e
    → e.cmd.is_running ≡ true
    → child_notify spawn now exittype serial self ≡ some after
    → IsSound after.queue
unfolding child_notify
child_notify-IsSound spawn now exittype serial e self s f r h =
    elim (Option-cases (endnotify spawn now exittype serial self)) [
      | inl x ↦ absurd (ground arith)
      | inr (ended, x) ↦
          let ending : Ending serial e self = record { sound = s; found = f; running = r } in
          subst (λ a. IsSound a.queue) (some_inj.0 (rw (x, child_notify) at h))
            (stopped-IsSound serial ended.queue
              (endnotify-IsSound serial e self spawn now exittype ending x))
    ]
