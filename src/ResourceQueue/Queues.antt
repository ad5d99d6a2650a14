-- ===== src/ResourceQueue/Queues.antt =====
-- The table of queues of clientlib/resourcequeue.c: what a change to one queue does to all of them.
use assimilation_official.Common.{
  ℕ, ◌+◌, ◌≡◌, refl, inl, inr, Bool, true, false, List, [], ◌∷◌, arith, All, Bool-cases, sym, ap,
  ◌≤◌, List-cases, if◌then◌else◌,
}
use mathlib.Core.Path.{subst}
use assimilation_official.NetAddr.{same}
use assimilation_official.NetAddr.Canonical.{same_iff}
use assimilation_official.ResourceQueue.{
  Name, RscQElem, RscQueue, queue_of, has_queue, on_queue, drop_empty, ensure_queue,
}
use assimilation_official.ResourceQueue.Run.{run_one, run_all, stop_running, stop_in}

-- What holds of every queue, with the name of its resource.
abbrev pub AllQueues : (Name → List RscQElem → Type 0) → List RscQueue → Type 0
AllQueues P table = All (λ q. P q.name q.elems) table

-- A measure of queues, over the whole table.
abbrev pub total : (List RscQElem → ℕ) → List RscQueue → ℕ
total m [] = 0
total m (q ∷ rest) = m q.elems + total m rest

pub same_refl : (name : Name) → same name name ≡ true
same_refl name = (same_iff name name).1 refl

module _ (P : Name → List RscQElem → Type 0) where
  pub queue_of-All :
      (name : Name) (table : List RscQueue)
      → AllQueues P table
      → P name []
      → P name (queue_of name table)
  unfolding queue_of
  queue_of-All name [] h p = p
  queue_of-All name (q ∷ rest) h p = elim (Bool-cases (same name q.name)) [
    | inl e ↦ rw (e, (same_iff name q.name).0 e) h.0
    | inr e ↦ rw e (queue_of-All name rest h.1 p)
  ]

  pub on_queue-All :
      (name : Name) (f : List RscQElem → List RscQElem) (table : List RscQueue)
      → AllQueues P table
      → P name (f (queue_of name table))
      → AllQueues P (on_queue name f table)
  unfolding queue_of on_queue
  on_queue-All name f [] h p = tt
  on_queue-All name f (q ∷ rest) h p = elim (Bool-cases (same name q.name)) [
    | inl e ↦
        let here : P name (f q.elems) =
          subst (λ b. P name (f (if b then q.elems else queue_of name rest))) e p in
        rw e (subst (λ n. P n (f q.elems)) ((same_iff name q.name).0 e) here, h.1)
    | inr e ↦
        let there : P name (f (queue_of name rest)) =
          subst (λ b. P name (f (if b then q.elems else queue_of name rest))) e p in
        rw e (h.0, on_queue-All name f rest h.1 there)
  ]

  pub drop_empty-All :
      (name : Name) (table : List RscQueue)
      → AllQueues P table
      → AllQueues P (drop_empty name table)
  unfolding drop_empty
  drop_empty-All name [] h = tt
  drop_empty-All name (q ∷ rest) h = elim (Bool-cases (same name q.name)) [
    | inl e ↦ elim (List-cases q.elems) [
      | inl none_left ↦ rw (e, none_left) h.1
      | inr (x, more, left) ↦ rw (e, left) h
    ]
    | inr e ↦ rw e (h.0, drop_empty-All name rest h.1)
  ]

  pub ensure_queue-All :
      (name : Name) (table : List RscQueue)
      → AllQueues P table
      → P name []
      → AllQueues P (ensure_queue name table)
  unfolding ensure_queue
  ensure_queue-All name table h p = elim (Bool-cases (has_queue name table)) [
    | inl e ↦ rw e h
    | inr e ↦ rw e (p, h)
  ]

  pub run_all-All :
      (spawn : RscQElem → Bool) (now : ℕ) (table : List RscQueue)
      → ((name : Name) (q : List RscQElem) → P name q → P name (run_one spawn now q).0)
      → AllQueues P table
      → AllQueues P (run_all spawn now table).0
  unfolding run_all
  run_all-All spawn now [] keep h = tt
  run_all-All spawn now (q ∷ rest) keep h =
      (keep q.name q.elems h.0, run_all-All spawn now rest keep h.1)

  pub stop_in-All :
      (serial : ℕ) (table : List RscQueue)
      → ((name : Name) (q : List RscQElem) → P name q → P name (stop_running serial q))
      → AllQueues P table
      → AllQueues P (stop_in serial table)
  unfolding stop_in
  stop_in-All serial [] keep h = tt
  stop_in-All serial (q ∷ rest) keep h = (keep q.name q.elems h.0, stop_in-All serial rest keep h.1)

-- The queue of the name is there once it was made.
pub has_queue-ensure_queue :
    (name : Name) (table : List RscQueue) → has_queue name (ensure_queue name table) ≡ true
unfolding ensure_queue has_queue
has_queue-ensure_queue name table = elim (Bool-cases (has_queue name table)) [
  | inl e ↦ rw e e
  | inr e ↦ rw (e, same_refl name) refl
]

pub queue_of_none :
    (name : Name) (table : List RscQueue) → has_queue name table ≡ false → queue_of name table ≡ []
unfolding has_queue queue_of
queue_of_none name [] h = refl
queue_of_none name (q ∷ rest) h = ground (arith, queue_of_none name rest)

pub queue_of-ensure_queue :
    (name : Name) (table : List RscQueue)
    → queue_of name (ensure_queue name table) ≡ queue_of name table
unfolding ensure_queue has_queue queue_of
queue_of-ensure_queue name table = elim (Bool-cases (has_queue name table)) [
  | inl e ↦ rw e refl
  | inr e ↦ rw (e, same_refl name) (sym (queue_of_none name table e))
]

module _ (m : List RscQElem → ℕ) where
  pub total-on_queue :
      (name : Name) (f : List RscQElem → List RscQElem) (table : List RscQueue)
      → has_queue name table ≡ true
      → total m (on_queue name f table) + m (queue_of name table)
        ≡ total m table + m (f (queue_of name table))
  unfolding queue_of on_queue has_queue
  total-on_queue name f [] h = ground arith
  total-on_queue name f (q ∷ rest) h = ground (arith, total-on_queue name f rest)

  pub total-drop_empty :
      (name : Name) (table : List RscQueue)
      → m [] ≡ 0
      → total m (drop_empty name table) ≡ total m table
  unfolding drop_empty
  total-drop_empty name [] z = refl
  total-drop_empty name (q ∷ rest) z = elim (Bool-cases (same name q.name)) [
    | inl e ↦ elim (List-cases q.elems) [
      | inl none_left ↦ rw (e, none_left) (omega arith)
      | inr (x, more, left) ↦ rw (e, left) (ap (λ l. m l + total m rest) left)
    ]
    | inr e ↦ rw e (ap (λ n. m q.elems + n) (total-drop_empty name rest z))
  ]

  pub total-ensure_queue :
      (name : Name) (table : List RscQueue)
      → m [] ≡ 0
      → total m (ensure_queue name table) ≡ total m table
  unfolding ensure_queue
  total-ensure_queue name table z = ground arith

  pub total_part :
      (name : Name) (table : List RscQueue) → m [] ≡ 0 → m (queue_of name table) ≤ total m table
  unfolding queue_of
  total_part name [] z = omega arith
  total_part name (q ∷ rest) z = ground (arith, total_part name rest z)
