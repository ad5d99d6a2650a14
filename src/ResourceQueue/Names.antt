-- ===== src/ResourceQueue/Names.antt =====
-- The names of the table of queues of clientlib/resourcequeue.c: a key occurs once, and an element is
-- in the queue of its resource.
use assimilation_official.Common.{
  ℕ, ◌≡◌, refl, inl, inr, Bool, true, false, ◌||◌, some, List, [], ◌∷◌, arith, All, ◌==◌,
  Bool-cases, Option-cases, List-cases, ◌∙◌, if◌then◌else◌, ap,
}
use mathlib.Core.Path.{subst}
use mathlib.Core.Option.{some_inj}
use assimilation_official.NetAddr.{same}
use assimilation_official.NetAddr.Canonical.{same_iff}
use assimilation_official.ResourceQueue.{
  Name, RscQElem, RscQueue, queue_of, has_queue, on_queue, drop_empty, ensure_queue,
}
use assimilation_official.ResourceQueue.Run.{run_all, find_serial, find_elem, stop_in}
use assimilation_official.ResourceQueue.Queues.{AllQueues}

abbrev pub Distinct : List RscQueue → Type 0
Distinct [] = Unit
Distinct (q ∷ rest) = (has_queue q.name rest ≡ false) × Distinct rest

module _ (name : Name) (f : List RscQElem → List RscQElem) where
  pub has_queue-on_queue :
      (k : Name) (table : List RscQueue) → has_queue k (on_queue name f table) ≡ has_queue k table
  unfolding has_queue on_queue
  has_queue-on_queue k [] = refl
  has_queue-on_queue k (q ∷ rest) = ground (arith, has_queue-on_queue k rest)

  pub on_queue-Distinct :
      (table : List RscQueue) → Distinct table → Distinct (on_queue name f table)
  unfolding on_queue
  on_queue-Distinct [] h = tt
  on_queue-Distinct (q ∷ rest) h = elim (Bool-cases (same name q.name)) [
    | inl e ↦ rw e h
    | inr e ↦ rw e (has_queue-on_queue q.name rest ∙ h.0, on_queue-Distinct rest h.1)
  ]

pub has_queue-drop_empty :
    (k name : Name) (table : List RscQueue)
    → has_queue k table ≡ false
    → has_queue k (drop_empty name table) ≡ false
unfolding has_queue drop_empty
has_queue-drop_empty k name [] h = refl
has_queue-drop_empty k name (q ∷ rest) h =
    let later : has_queue k rest ≡ false = ground arith in
    let kept = has_queue-drop_empty k name rest later in
    elim (Bool-cases (same name q.name)) [
      | inl e ↦ elim (List-cases q.elems) [
        | inl none_left ↦ rw (e, none_left) later
        | inr (x, more, left) ↦ rw (e, left) h
      ]
      | inr e ↦ rw e (ground arith)
    ]

pub drop_empty-Distinct :
    (name : Name) (table : List RscQueue) → Distinct table → Distinct (drop_empty name table)
unfolding drop_empty
drop_empty-Distinct name [] h = tt
drop_empty-Distinct name (q ∷ rest) h = elim (Bool-cases (same name q.name)) [
  | inl e ↦ elim (List-cases q.elems) [
    | inl none_left ↦ rw (e, none_left) h.1
    | inr (x, more, left) ↦ rw (e, left) h
  ]
  | inr e ↦ rw e (has_queue-drop_empty q.name name rest h.0, drop_empty-Distinct name rest h.1)
]

pub ensure_queue-Distinct :
    (name : Name) (table : List RscQueue) → Distinct table → Distinct (ensure_queue name table)
unfolding ensure_queue
ensure_queue-Distinct name table h = elim (Bool-cases (has_queue name table)) [
  | inl e ↦ rw e h
  | inr e ↦ rw e (e, h)
]

module _ (spawn : RscQElem → Bool) (now : ℕ) where
  has_queue-run_all :
      (k : Name) (table : List RscQueue)
      → has_queue k (run_all spawn now table).0 ≡ has_queue k table
  unfolding has_queue run_all
  has_queue-run_all k [] = refl
  has_queue-run_all k (q ∷ rest) = ap (λ b. same k q.name || b) (has_queue-run_all k rest)

  pub run_all-Distinct :
      (table : List RscQueue) → Distinct table → Distinct (run_all spawn now table).0
  unfolding run_all
  run_all-Distinct [] h = tt
  run_all-Distinct (q ∷ rest) h = (has_queue-run_all q.name rest ∙ h.0, run_all-Distinct rest h.1)

has_queue-stop_in :
    (k : Name) (serial : ℕ) (table : List RscQueue)
    → has_queue k (stop_in serial table) ≡ has_queue k table
unfolding has_queue stop_in
has_queue-stop_in k serial [] = refl
has_queue-stop_in k serial (q ∷ rest) =
    ap (λ b. same k q.name || b) (has_queue-stop_in k serial rest)

pub stop_in-Distinct :
    (serial : ℕ) (table : List RscQueue) → Distinct table → Distinct (stop_in serial table)
unfolding stop_in
stop_in-Distinct serial [] h = tt
stop_in-Distinct serial (q ∷ rest) h =
    (has_queue-stop_in q.name serial rest ∙ h.0, stop_in-Distinct serial rest h.1)

-- The queue that an element is found in, in a table whose queues hold what is named like them.
pub record Located (serial : ℕ) (e : RscQElem) (table : List RscQueue) : Type 0 where
  pub there : has_queue e.cmd.resourcename table ≡ true
  pub inside : find_serial serial (queue_of e.cmd.resourcename table) ≡ some e

pub All-find_serial :
    (E : RscQElem → Type 0) (serial : ℕ) (e : RscQElem) (q : List RscQElem)
    → All E q
    → find_serial serial q ≡ some e
    → E e
unfolding find_serial
All-find_serial E serial e [] h s = absurd (ground arith)
All-find_serial E serial e (f ∷ q) h s = elim (Bool-cases (serial == f.serial)) [
  | inl x ↦
      subst E (some_inj.0 (subst (λ b. (if b then some f else find_serial serial q) ≡ some e) x s))
        h.0
  | inr x ↦
      All-find_serial E serial e q h.1
        (subst (λ b. (if b then some f else find_serial serial q) ≡ some e) x s)
]

pub find_elem-Located :
    (serial : ℕ) (e : RscQElem) (table : List RscQueue)
    → Distinct table
    → AllQueues (λ name q. All (λ f. f.cmd.resourcename ≡ name) q) table
    → find_elem serial table ≡ some e
    → Located serial e table
unfolding find_elem has_queue queue_of
find_elem-Located serial e [] d h s = absurd (ground arith)
find_elem-Located serial e (q ∷ rest) d h s = elim (Option-cases (find_serial serial q.elems)) [
  | inl x ↦
      let there : find_elem serial rest ≡ some e = ground arith in
      let l = find_elem-Located serial e rest d.1 h.1 there in
      let other : same e.cmd.resourcename q.name ≡ false =
        elim (Bool-cases (same e.cmd.resourcename q.name)) [
          | inl y ↦
              absurd
                (ground (arith, subst (λ n. has_queue n rest ≡ true) ((same_iff _ _).0 y) l.there))
          | inr y ↦ y
        ] in
      record { there = rw (other, l.there) refl; inside = rw other l.inside }
  | inr (g, x) ↦
      let found : find_serial serial q.elems ≡ some e = ground arith in
      let name : e.cmd.resourcename ≡ q.name =
        All-find_serial (λ f. f.cmd.resourcename ≡ q.name) serial e q.elems h.0 found in
      let here : same e.cmd.resourcename q.name ≡ true = (same_iff _ _).1 name in
      record { there = rw here refl; inside = rw here found }
]
