-- ===== src/ResourceQueue/Tables.antt =====
-- The invariant of the table of queues of clientlib/resourcequeue.c, and what keeps it: replacing a
-- queue by another one, and removing it when it is empty.
use assimilation_official.Common.{
  ℕ, ◌≡◌, ◌≤◌, ◌<◌, refl, inl, inr, Bool, true, some, List, [], ◌∷◌, arith, All, Bool-cases,
  List-cases, length, sym, if◌then◌else◌, ap, ℤ, is_positive,
}
use mathlib.Core.Path.{subst}
use assimilation_official.NetAddr.{same}
use assimilation_official.NetAddr.Canonical.{same_iff}
use assimilation_official.ResourceQueue.{Name, RscQElem, RscQueue, queue_of, on_queue, drop_empty}
use assimilation_official.ResourceQueue.Run.{run_one, run_all, execute, stop_running, stop_in}
use assimilation_official.ResourceQueue.Queues.{
  AllQueues, total, on_queue-All, queue_of-All, run_all-All, stop_in-All, total-drop_empty,
}
use assimilation_official.ResourceQueue.Elements.{
  runs, any_serial, count, run_one_single, All-run_one, All-stop_running, count-run_one,
  length-run_one, length-stop_running, count-stop_running, runs-stop_running_le,
}
use assimilation_official.ResourceQueue.Names.{
  Distinct, on_queue-Distinct, drop_empty-Distinct, run_all-Distinct, stop_in-Distinct,
}

-- An element of the queue of a resource, with the request id of that queue.
pub record IsElem (name : Name) (id : ℤ) (e : RscQElem) : Type 0 where
  pub named : e.cmd.resourcename ≡ name
  pub asked : e.cmd.request.resource ≡ some name
  pub ident : e.requestid ≡ id
  pub request : e.cmd.request.reqid ≡ id
  pub positive : is_positive id ≡ true

-- All requests of a queue have one id, and at most one of them runs.
pub record IsQueue (name : Name) (q : List RscQElem) : Type 0 where
  pub id : ℤ
  pub elems : All (IsElem name id) q
  pub single : runs any_serial q ≤ 1

abbrev IsFilled : Name → List RscQElem → Type 0
IsFilled name q = 0 < length q

pub record IsTable (table : List RscQueue) : Type 0 where
  pub queues : AllQueues IsQueue table
  pub filled : AllQueues IsFilled table
  pub distinct : Distinct table
  pub once : (s : ℕ) → total (count s) table ≤ 1

pub nil-IsQueue : (name : Name) → IsQueue name []
nil-IsQueue name = record { id = ℤ.pos 1; elems = tt; single = omega arith }

pub queue_of-IsQueue :
    (name : Name) (table : List RscQueue) → IsTable table → IsQueue name (queue_of name table)
queue_of-IsQueue name table t = queue_of-All IsQueue name table t.queues (nil-IsQueue name)

-- What was replaced can be replaced again, or removed when it is empty.
pub on_queue-on_queue :
    (name : Name) (f g : List RscQElem → List RscQElem) (table : List RscQueue)
    → on_queue name g (on_queue name f table) ≡ on_queue name (λ q. g (f q)) table
unfolding on_queue
on_queue-on_queue name f g [] = refl
on_queue-on_queue name f g (q ∷ rest) = elim (Bool-cases (same name q.name)) [
  | inl e ↦ rw (e, e) refl
  | inr e ↦ rw (e, e) (ap (λ r. q ∷ r) (on_queue-on_queue name f g rest))
]

drop_on-All :
    (P : Name → List RscQElem → Type 0) (name : Name) (f : List RscQElem → List RscQElem)
    (table : List RscQueue)
    → AllQueues P table
    → (0 < length (f (queue_of name table)) → P name (f (queue_of name table)))
    → AllQueues P (drop_empty name (on_queue name f table))
unfolding queue_of on_queue drop_empty
drop_on-All P name f [] h p = tt
drop_on-All P name f (q ∷ rest) h p = elim (Bool-cases (same name q.name)) [
  | inl e ↦
      let here : 0 < length (f q.elems) → P name (f q.elems) =
        subst
          (λ b.
            0 < length (f (if b then q.elems else queue_of name rest))
            → P name (f (if b then q.elems else queue_of name rest)))
          e p in
      elim (List-cases (f q.elems)) [
        | inl gone ↦ rw (e, e, gone) h.1
        | inr (x, more, left) ↦
            rw (e, e, left)
              (
                subst (λ n. P n (f q.elems)) ((same_iff name q.name).0 e)
                    (here (rw left (omega arith))),
                h.1,
              )
      ]
  | inr e ↦
      let there : 0 < length (f (queue_of name rest)) → P name (f (queue_of name rest)) =
        subst
          (λ b.
            0 < length (f (if b then q.elems else queue_of name rest))
            → P name (f (if b then q.elems else queue_of name rest)))
          e p in
      rw (e, e) (h.0, drop_on-All P name f rest h.1 there)
]

module _ (name : Name) (f : List RscQElem → List RscQElem) (table : List RscQueue) where
  pub replace-IsTable :
      IsTable table
      → IsQueue name (f (queue_of name table))
      → 0 < length (f (queue_of name table))
      → ((s : ℕ) → total (count s) (on_queue name f table) ≤ 1)
      → IsTable (on_queue name f table)
  replace-IsTable t q l o = record {
    queues = on_queue-All IsQueue name f table t.queues q;
    filled = on_queue-All IsFilled name f table t.filled l;
    distinct = on_queue-Distinct name f table t.distinct;
    once = o;
  }

  pub remove-IsTable :
      IsTable table
      → IsQueue name (f (queue_of name table))
      → ((s : ℕ) → total (count s) (on_queue name f table) ≤ 1)
      → IsTable (drop_empty name (on_queue name f table))
  remove-IsTable t q o = record {
    queues = drop_on-All IsQueue name f table t.queues (λ l. q);
    filled = drop_on-All IsFilled name f table t.filled (λ l. l);
    distinct =
        drop_empty-Distinct name (on_queue name f table)
          (on_queue-Distinct name f table t.distinct);
    once = λ s.
        subst (λ n. n ≤ 1) (sym (total-drop_empty (count s) name (on_queue name f table) refl))
          (o s);
  }

-- A measure that starting, or stopping, leaves as it is in each queue.
pub total-run_all :
    (spawn : RscQElem → Bool) (now : ℕ) (m : List RscQElem → ℕ) (table : List RscQueue)
    → ((q : List RscQElem) → m (run_one spawn now q).0 ≡ m q)
    → total m (run_all spawn now table).0 ≡ total m table
unfolding run_all
total-run_all spawn now m [] keep = refl
total-run_all spawn now m (q ∷ rest) keep =
    omega (arith, keep q.elems, total-run_all spawn now m rest keep)

pub total-stop_in :
    (serial : ℕ) (m : List RscQElem → ℕ) (table : List RscQueue)
    → ((q : List RscQElem) → m (stop_running serial q) ≡ m q)
    → total m (stop_in serial table) ≡ total m table
unfolding stop_in
total-stop_in serial m [] keep = refl
total-stop_in serial m (q ∷ rest) keep =
    omega (arith, keep q.elems, total-stop_in serial m rest keep)

run_one-IsQueue :
    (spawn : RscQElem → Bool) (now : ℕ) (name : Name) (q : List RscQElem)
    → IsQueue name q
    → IsQueue name (run_one spawn now q).0
unfolding execute
run_one-IsQueue spawn now name q h = record {
  id = h.id;
  elems =
      All-run_one (IsElem name h.id) spawn now
        (λ e x. record {
          named = x.named;
          asked = x.asked;
          ident = x.ident;
          request = x.request;
          positive = x.positive;
        })
        q h.elems;
  single = run_one_single spawn now q h.single;
}

pub run_all-IsTable :
    (spawn : RscQElem → Bool) (now : ℕ) (table : List RscQueue)
    → IsTable table
    → IsTable (run_all spawn now table).0
run_all-IsTable spawn now table t = record {
  queues = run_all-All IsQueue spawn now table (run_one-IsQueue spawn now) t.queues;
  filled =
      run_all-All IsFilled spawn now table
        (λ name q l. subst (λ n. 0 < n) (sym (length-run_one spawn now q)) l) t.filled;
  distinct = run_all-Distinct spawn now table t.distinct;
  once = λ s.
      subst (λ n. n ≤ 1) (sym (total-run_all spawn now (count s) table (count-run_one spawn now s)))
        (t.once s);
}

stop_running-IsQueue :
    (serial : ℕ) (name : Name) (q : List RscQElem)
    → IsQueue name q
    → IsQueue name (stop_running serial q)
stop_running-IsQueue serial name q h = record {
  id = h.id;
  elems =
      All-stop_running (IsElem name h.id) serial
        (λ e x. record {
          named = x.named;
          asked = x.asked;
          ident = x.ident;
          request = x.request;
          positive = x.positive;
        })
        q h.elems;
  single = omega (arith, h.single, runs-stop_running_le any_serial serial q);
}

pub stop_in-IsTable :
    (serial : ℕ) (table : List RscQueue) → IsTable table → IsTable (stop_in serial table)
stop_in-IsTable serial table t = record {
  queues = stop_in-All IsQueue serial table (stop_running-IsQueue serial) t.queues;
  filled =
      stop_in-All IsFilled serial table
        (λ name q l. subst (λ n. 0 < n) (sym (length-stop_running serial q)) l) t.filled;
  distinct = stop_in-Distinct serial table t.distinct;
  once = λ s.
      subst (λ n. n ≤ 1) (sym (total-stop_in serial (count s) table (count-stop_running s serial)))
        (t.once s);
}
