-- ===== src/ResourceQueue/Found.antt =====
-- clientlib/resourcequeue.c: the element that `_resource_queue_cancel` finds is the one with its serial
-- number.
use assimilation_official.Common.{
  ℕ, ◌⊎◌, ◌≡◌, ◌≤◌, refl, inl, inr, none, some, List, [], ◌∷◌, arith, Bool-cases, Option-cases, ℤ,
  equalz,
}
use mathlib.Core.Option.{some_inj}
use assimilation_official.NetAddr.{same}
use assimilation_official.ResourceQueue.{Name, RscQElem, RscQueue, Request, queue_of}
use assimilation_official.ResourceQueue.Run.{find_serial, find_elem}
use assimilation_official.ResourceQueue.Cancel.{find_request, find_anywhere, cancelled}
use assimilation_official.ResourceQueue.Queues.{total, total_part}
use assimilation_official.ResourceQueue.Elements.{count}

pub find_serial-none : (s : ℕ) (q : List RscQElem) → count s q ≡ 0 → find_serial s q ≡ none
unfolding find_serial
find_serial-none s [] h = refl
find_serial-none s (e ∷ q) h = ground (arith, find_serial-none s q)

pub find_elem-none : (s : ℕ) (t : List RscQueue) → total (count s) t ≡ 0 → find_elem s t ≡ none
unfolding find_elem
find_elem-none s [] h = refl
find_elem-none s (q ∷ t) h =
    rw (find_serial-none s q.elems (omega arith), find_elem) (find_elem-none s t (omega arith))

module _ (id : ℤ) (e : RscQElem) where
  nothing : find_request id [] ≡ some e → ⊥
  unfolding find_request
  nothing h = ground arith

  head_or_later :
      (f : RscQElem) (q : List RscQElem)
      → find_request id (f ∷ q) ≡ some e
      → (f ≡ e) ⊎ (find_request id q ≡ some e)
  unfolding find_request
  head_or_later f q h = elim (Bool-cases (equalz f.requestid id)) [
    | inl x ↦ inl (some_inj.0 (rw x at h))
    | inr x ↦ inr (rw x at h)
  ]

  counted_once : (q : List RscQElem) → find_request id q ≡ some e → 1 ≤ count e.serial q
  counted_once [] h = absurd (nothing h)
  counted_once (f ∷ q) h = elim (head_or_later f q h) [
    | inl x ↦ rw x (ground arith)
    | inr x ↦ omega (arith, counted_once q x)
  ]

  find_request-find_serial :
      (q : List RscQElem)
      → find_request id q ≡ some e
      → count e.serial q ≤ 1
      → find_serial e.serial q ≡ some e
  unfolding find_serial
  find_request-find_serial [] h c = absurd (nothing h)
  find_request-find_serial (f ∷ q) h c = elim (head_or_later f q h) [
    | inl x ↦ rw x (ground arith)
    | inr x ↦ ground (arith, counted_once q x, find_request-find_serial q x)
  ]

  anywhere_once : (t : List RscQueue) → find_anywhere id t ≡ some e → 1 ≤ total (count e.serial) t
  unfolding find_anywhere
  anywhere_once [] h = absurd (ground arith)
  anywhere_once (q ∷ t) h = elim (Option-cases (find_request id q.elems)) [
    | inl x ↦ omega (arith, anywhere_once t (rw (x, find_anywhere) at h))
    | inr (g, x) ↦ omega (arith, counted_once q.elems (ground arith))
  ]

  find_anywhere-find_elem :
      (t : List RscQueue)
      → find_anywhere id t ≡ some e
      → total (count e.serial) t ≤ 1
      → find_elem e.serial t ≡ some e
  unfolding find_anywhere find_elem
  find_anywhere-find_elem [] h c = h
  find_anywhere-find_elem (q ∷ t) h c = elim (Option-cases (find_request id q.elems)) [
    | inl x ↦
        let later : find_anywhere id t ≡ some e = rw (x, find_anywhere) at h in
        let once = anywhere_once t later in
        rw (find_serial-none e.serial q.elems (omega arith), find_elem)
          (find_anywhere-find_elem t later (omega arith))
    | inr (g, x) ↦
        let found : find_request id q.elems ≡ some e = ground arith in
        rw (find_request-find_serial q.elems found (omega arith), find_elem) refl
  ]

  queue_of-find_elem :
      (name : Name) (t : List RscQueue)
      → find_request id (queue_of name t) ≡ some e
      → total (count e.serial) t ≤ 1
      → find_elem e.serial t ≡ some e
  unfolding queue_of find_elem
  queue_of-find_elem name [] h c = absurd (nothing h)
  queue_of-find_elem name (q ∷ t) h c = elim (Bool-cases (same name q.name)) [
    | inl x ↦ rw (find_request-find_serial q.elems (rw x at h) (omega arith), find_elem) refl
    | inr x ↦
        let later : find_request id (queue_of name t) ≡ some e = rw x at h in
        let once = counted_once (queue_of name t) later in
        let part = total_part (count e.serial) name t refl in
        rw (find_serial-none e.serial q.elems (omega arith), find_elem)
          (queue_of-find_elem name t later (omega arith))
  ]

-- What is cancelled is in the table.
pub cancelled-find_elem :
    (request : Request) (e : RscQElem) (t : List RscQueue)
    → cancelled request t ≡ some e
    → total (count e.serial) t ≤ 1
    → find_elem e.serial t ≡ some e
unfolding cancelled
cancelled-find_elem request e t h c = elim (Option-cases request.resource) [
  | inl x ↦ find_anywhere-find_elem request.reqid e t (rw x at h) c
  | inr (name, x) ↦ queue_of-find_elem request.reqid e name t (rw x at h) c
]
