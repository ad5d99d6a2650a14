-- ===== src/ResourceQueue/Running.antt =====
-- clientlib/resourcequeue.c: starting commands, and the state in which a child's end leaves the queue.
use assimilation_official.Common.{
  ℕ, ◌+◌, ◌<◌, ◌↔◌, sym, ◌∙◌, ◌≡◌, ◌≤◌, refl, Bool, true, List, [], ◌∷◌, arith, length, inl, inr,
  List-cases,
}
use assimilation_official.ResourceQueue.{RscQElem, RscQueue, ResourceQueue}
use assimilation_official.ResourceQueue.Run.{
  run_one, run_all, any_elems, runqueue, stop_running, stop_in,
}
use assimilation_official.ResourceQueue.Queues.{total}
use assimilation_official.ResourceQueue.Elements.{
  runs, any_serial, but, count, sum, runs-run_one, runs-stop_running, length-run_one,
  length-stop_running, count-run_one, count-stop_running,
}
use assimilation_official.ResourceQueue.Tables.{
  IsTable, run_all-IsTable, stop_in-IsTable, total-run_all, total-stop_in,
}

-- A queue with its table and its counters in order: serial numbers are given out once, the count of
-- children bounds the running commands, and the timer is on while there is something to do.
-- Only the commands whose serial number passes a test are counted.
pub record IsSoundFor (p : ℕ → Bool) (self : ResourceQueue) : Type 0 where
  pub table : IsTable self.resources
  pub fresh : (s : ℕ) → self.next_serial ≤ s → total (count s) self.resources ≡ 0
  pub counted : total (runs p) self.resources ≤ self.activechildcnt
  pub timed : any_elems self.resources ≡ true → self.timer ≡ true

abbrev pub IsSound : ResourceQueue → Type 0
IsSound self = IsSoundFor any_serial self

pub runs-run_all :
    (spawn : RscQElem → Bool) (now : ℕ) (p : ℕ → Bool) (table : List RscQueue)
    → total (runs p) (run_all spawn now table).0
      ≤ total (runs p) table + (run_all spawn now table).1
unfolding run_all
runs-run_all spawn now p [] = omega arith
runs-run_all spawn now p (q ∷ rest) =
    omega (arith, runs-run_one spawn now p q.elems, runs-run_all spawn now p rest)

abbrev pub one : RscQElem → ℕ
one e = 1

sum-one : (q : List RscQElem) → sum one q ≡ length q
sum-one [] = refl
sum-one (e ∷ q) = omega (arith, sum-one q)

pub any_elems_iff : (table : List RscQueue) → (any_elems table ≡ true) ↔ (0 < total (sum one) table)
unfolding any_elems
any_elems_iff [] = ground arith
any_elems_iff (q ∷ rest) = elim (List-cases q.elems) [
  | inl e ↦ rw e (ground (arith, any_elems_iff rest))
  | inr (x, more, e) ↦ rw e (λ h. omega arith, λ h. refl)
]

pub elems-run_all :
    (spawn : RscQElem → Bool) (now : ℕ) (table : List RscQueue)
    → total (sum one) (run_all spawn now table).0 ≡ total (sum one) table
elems-run_all spawn now table =
    total-run_all spawn now (sum one) table
      (λ q. sum-one (run_one spawn now q).0 ∙ length-run_one spawn now q ∙ sym (sum-one q))

pub elems-stop_in :
    (serial : ℕ) (table : List RscQueue)
    → total (sum one) (stop_in serial table) ≡ total (sum one) table
elems-stop_in serial table =
    total-stop_in serial (sum one) table
      (λ q. sum-one (stop_running serial q) ∙ length-stop_running serial q ∙ sym (sum-one q))

pub runs-stop_in :
    (s : ℕ) (table : List RscQueue)
    → total (count s) table ≤ 1
    → total (runs any_serial) (stop_in s table) ≡ total (runs (but s)) table
unfolding stop_in
runs-stop_in s [] h = refl
runs-stop_in s (q ∷ rest) h =
    omega (arith, runs-stop_running s q.elems (omega arith), runs-stop_in s rest (omega arith))

pub runqueue-IsSound :
    (p : ℕ → Bool) (spawn : RscQElem → Bool) (now : ℕ) (self : ResourceQueue)
    → IsSoundFor p self
    → IsSoundFor p (runqueue spawn now self).0
unfolding runqueue
runqueue-IsSound p spawn now self s = record {
  table = run_all-IsTable spawn now self.resources s.table;
  fresh = λ i l.
      total-run_all spawn now (count i) self.resources (count-run_one spawn now i) ∙ s.fresh i l;
  counted = omega (arith, runs-run_all spawn now p self.resources, s.counted);
  timed = λ h. ground (
    arith,
    any_elems_iff (run_all spawn now self.resources).0,
    any_elems_iff self.resources,
    elems-run_all spawn now self.resources,
  );
}

-- A command that has stopped is not counted any more.
pub stopped-IsSound :
    (serial : ℕ) (self : ResourceQueue)
    → IsSoundFor (but serial) self
    → IsSound (record self { resources = stop_in serial self.resources })
stopped-IsSound serial self s =
    let t : List RscQueue = self.resources in
    record {
      table = stop_in-IsTable serial t s.table;
      fresh = λ i l. total-stop_in serial (count i) t (count-stop_running i serial) ∙ s.fresh i l;
      counted = omega (arith, runs-stop_in serial t (s.table.once serial), s.counted);
      timed = λ h. s.timed (
          ground
            (arith, any_elems_iff (stop_in serial t), any_elems_iff t, elems-stop_in serial t));
    }
