-- ===== src/ResourceQueue/Ending.antt =====
-- `_resource_queue_endnotify` and `_resource_queue_cancel` of clientlib/resourcequeue.c keep the table
-- of queues.
use assimilation_official.Common.{
  ℕ, ◌+◌, ◌≡◌, refl, some, List, [], ◌∷◌, arith, All, length-append, ℤ,
}
use assimilation_official.ResourceQueue.{
  Name, RscQElem, RscQueue, queue_of, on_queue, drop_empty, without, push_tail,
}
use assimilation_official.ResourceQueue.Run.{find_elem}
use assimilation_official.ResourceQueue.Queues.{AllQueues, total, total-on_queue, total-drop_empty}
use assimilation_official.ResourceQueue.Elements.{
  sum, any_serial, count_weight, runs_weight, sum-push_tail, All-push_tail, sum-without,
  sum-without_le, All-without,
}
use assimilation_official.ResourceQueue.Names.{Located, find_elem-Located, All-find_serial}
use assimilation_official.ResourceQueue.Tables.{
  IsTable, IsQueue, IsElem, replace-IsTable, remove-IsTable, queue_of-IsQueue,
}

named :
    (name : Name) (id : ℤ) (q : List RscQElem)
    → All (IsElem name id) q
    → All (λ e. e.cmd.resourcename ≡ name) q
named name id [] h = tt
named name id (e ∷ q) h = (h.0.named, named name id q h.1)

All-named :
    (table : List RscQueue)
    → AllQueues IsQueue table
    → AllQueues (λ name q. All (λ e. e.cmd.resourcename ≡ name) q) table
All-named [] h = tt
All-named (q ∷ rest) h = (named q.name h.0.id q.elems h.0.elems, All-named rest h.1)

pub located :
    (serial : ℕ) (e : RscQElem) (table : List RscQueue)
    → IsTable table
    → find_elem serial table ≡ some e
    → Located serial e table
located serial e table t h =
    find_elem-Located serial e table t.distinct (All-named table t.queues) h

pub without-IsQueue :
    (serial : ℕ) (name : Name) (q : List RscQElem)
    → IsQueue name q
    → IsQueue name (without serial q)
without-IsQueue serial name q h = record {
  id = h.id;
  elems = All-without (IsElem name h.id) serial q h.elems;
  single = omega (arith, h.single, sum-without_le (runs_weight any_serial) serial q);
}

-- The queue of an element without it, and with another one for it at the end.
module _ (serial : ℕ) (e : RscQElem) (table : List RscQueue) where
  abbrev pub taken : List RscQueue
  taken = on_queue e.cmd.resourcename (without serial) table

  pub total-taken :
      (w : RscQElem → ℕ) → Located serial e table → total (sum w) taken + w e ≡ total (sum w) table
  total-taken w l = omega (
    arith,
    total-on_queue (sum w) e.cmd.resourcename (without serial) table l.there,
    sum-without w serial e (queue_of e.cmd.resourcename table) l.inside,
  )

  pub taken-IsTable :
      Located serial e table → IsTable table → IsTable (drop_empty e.cmd.resourcename taken)
  taken-IsTable l t =
      remove-IsTable e.cmd.resourcename (without serial) table t
        (without-IsQueue serial e.cmd.resourcename (queue_of e.cmd.resourcename table)
          (queue_of-IsQueue e.cmd.resourcename table t))
        (λ s. omega (arith, total-taken (count_weight s) l, t.once s))

-- What is left when the queue is removed if it is empty.
module _ (serial : ℕ) (e : RscQElem) (table : List RscQueue) where
  pub total-gone :
      (w : RscQElem → ℕ)
      → Located serial e table
      → total (sum w) (drop_empty e.cmd.resourcename (taken serial e table)) + w e
        ≡ total (sum w) table
  total-gone w l = omega (
    arith,
    total-drop_empty (sum w) e.cmd.resourcename (taken serial e table) refl,
    total-taken serial e table w l,
  )

module _ (serial : ℕ) (e again : RscQElem) (table : List RscQueue) where
  abbrev pub moved : List RscQueue
  moved = on_queue e.cmd.resourcename (λ q. push_tail again (without serial q)) table

  pub total-moved :
      (w : RscQElem → ℕ)
      → Located serial e table
      → total (sum w) moved + w e ≡ total (sum w) table + w again
  total-moved w l = omega (
    arith,
    total-on_queue (sum w) e.cmd.resourcename (λ q. push_tail again (without serial q)) table
        l.there,
    sum-without w serial e (queue_of e.cmd.resourcename table) l.inside,
    sum-push_tail w again (without serial (queue_of e.cmd.resourcename table)),
  )

  pub moved-IsTable :
      Located serial e table
      → IsTable table
      → again.serial ≡ e.serial
      → again.cmd.is_running ≡ e.cmd.is_running
      → ((name : Name) (id : ℤ) → IsElem name id e → IsElem name id again)
      → IsTable moved
  moved-IsTable l t s r k =
      let name : Name = e.cmd.resourcename in
      let old : List RscQElem = queue_of name table in
      let q = queue_of-IsQueue name table t in
      let elem = All-find_serial (IsElem name q.id) serial e old q.elems l.inside in
      let weight : runs_weight any_serial again ≡ runs_weight any_serial e = rw r refl in
      let counts : (i : ℕ) → count_weight i again ≡ count_weight i e = λ i. rw s refl in
      let f : List RscQElem → List RscQElem = λ l. push_tail again (without serial l) in
      replace-IsTable name f table t
        (record {
          id = q.id;
          elems =
              All-push_tail (IsElem name q.id) again (without serial old)
                (All-without (IsElem name q.id) serial old q.elems) (k name q.id elem);
          single = omega (
            arith,
            q.single,
            sum-push_tail (runs_weight any_serial) again (without serial old),
            sum-without (runs_weight any_serial) serial e old l.inside,
            weight,
          );
        })
        (omega (arith, length-append (without serial old) (again ∷ [])))
        (λ i. omega (arith, total-moved (count_weight i) l, t.once i, counts i))
