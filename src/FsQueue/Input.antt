-- ===== src/FsQueue/Input.antt =====
-- The input side of clientlib/fsqueue.c: `_fsqueue_inqsorted` keeps the framesets of one session in
-- the order of their numbers, each number once.
use assimilation_official.Common.{
  ℕ, ◌+◌, ◌≤◌, ◌<◌, ◌≡◌, refl, ◌⊎◌, inl, inr, Bool, true, false, Option, none, some, List, [], ◌∷◌,
  arith, ◌==◌, if◌then◌else◌, Bool-cases, ◌∙◌, sym,
}
use native.Mathlib.Decide.{dec_lt}
use assimilation_official.Seqno.{Seqno}
use assimilation_official.Seqno.Order.{compare_cases}
use assimilation_official.FsQueue.{
  FsQueue, is_full, insert_sorted, inqsorted, inq_sequenced, check_session, flush,
}
use assimilation_official.FsQueue.Frames.{FrameSet, getseqno}

-- The framesets belong to session `s`, and their numbers rise from `low` on.
abbrev pub Ascending : ℕ → ℕ → List FrameSet → Type 0
Ascending s low [] = Unit
Ascending s low (fs ∷ rest) =
    (r : Seqno) × (getseqno fs ≡ some r)
    × (r.sessionid ≡ s)
    × (low ≤ r.reqid)
    × Ascending s (r.reqid + 1) rest

-- What an input queue keeps while only sequenced framesets come in.
pub record IsInput (self : FsQueue) : Type 0 where
  pub ordered : Ascending self.sessionid self.nextseqno self.q
  pub opened : (self.q ≡ []) ⊎ (0 < self.sessionid)

-- The frameset under the number `n`.
abbrev pub find_reqid : ℕ → List FrameSet → Option FrameSet
find_reqid n [] = none
find_reqid n (fs ∷ rest) = elim (getseqno fs) [
  | none ↦ find_reqid n rest
  | some r ↦ if r.reqid == n then some fs else find_reqid n rest
]

-- A number below all those of an ascending list is not in it.
pub find_reqid_below :
    (s low n : ℕ) (q : List FrameSet) → Ascending s low q → n < low → find_reqid n q ≡ none
find_reqid_below s low n [] c h = refl
find_reqid_below s low n (fs ∷ q) (r, e, es, hl, c) h =
    ground (arith, find_reqid_below s (r.reqid + 1) n q c)

-- The first frameset to come under a number stays.
abbrev pub or_new : Option FrameSet → FrameSet → Option FrameSet
or_new none fs = some fs
or_new (some old) fs = some old

-- `q'` is `q` with `fs` under its number, unless that was taken.
pub record Inserted (s low : ℕ) (seqno : Seqno) (fs : FrameSet) (q q' : List FrameSet)
    : Type 0 where
  pub order : Ascending s low q'
  pub found :
      (n : ℕ)
      → find_reqid n q' ≡ (if seqno.reqid == n then or_new (find_reqid n q) fs else find_reqid n q)

-- The insertion loop meets no frameset without a number, keeps the order, and inserts.
pub insert_sorted-Inserted :
    (s low : ℕ) (seqno : Seqno) (fs : FrameSet) (q : List FrameSet)
    → Ascending s low q
    → getseqno fs ≡ some seqno
    → seqno.sessionid ≡ s
    → low ≤ seqno.reqid
    → (q' : List FrameSet) × (insert_sorted seqno fs q ≡ some q') × Inserted s low seqno fs q q'
unfolding insert_sorted
insert_sorted-Inserted s low seqno fs [] c e hs hl =
    (fs ∷ [], refl, record { order = (seqno, e, hs, hl, tt); found = λ n. ground arith })
insert_sorted-Inserted s low seqno fs (this ∷ q) (r, er, es, hr, c) e hs hl =
    elim (compare_cases seqno r (hs ∙ sym es)) [
      | inl (l, p) ↦ (
        fs ∷ this ∷ q,
        ground arith,
        record {
          order = (seqno, e, hs, hl, (r, er, es, omega arith, c));
          found = λ n. ground (arith, find_reqid_below s (r.reqid + 1) seqno.reqid q c);
        },
      )
      | inr (inl (l, p)) ↦
          (this ∷ q, ground arith, record { order = (r, er, es, hr, c); found = λ n. ground arith })
      | inr (inr (l, p)) ↦
          let (q', eq', v) =
            insert_sorted-Inserted s (r.reqid + 1) seqno fs q c e hs (omega arith) in
          (
            this ∷ q',
            ground (arith, eq'),
            record { order = (r, er, es, hr, v.order); found = λ n. ground (arith, v.found n) },
          )
    ]

check_session-IsInput :
    (self : FsQueue) (seqno : Seqno)
    → IsInput self
    → 0 < seqno.sessionid
    → (self' : FsQueue) → check_session self seqno ≡ some self'
    → IsInput self' × (self'.sessionid ≡ seqno.sessionid)
unfolding check_session flush
check_session-IsInput self seqno v hs self' e = ground arith

inq_sequenced-IsInput :
    (self : FsQueue) (seqno : Seqno) (fs : FrameSet)
    → IsInput self
    → getseqno fs ≡ some seqno
    → 0 < seqno.sessionid
    → self.sessionid ≡ seqno.sessionid
    → self.nextseqno ≤ seqno.reqid
    → (b : Bool) × (self' : FsQueue) × (inq_sequenced self seqno fs ≡ some (b, self'))
      × IsInput self'
unfolding inq_sequenced
inq_sequenced-IsInput self seqno fs v e h0 hs hr =
    let (q', eq', w) =
      insert_sorted-Inserted self.sessionid self.nextseqno seqno fs self.q v.ordered e (sym hs)
        hr in
    elim (Bool-cases (is_full self)) [
      | inl full ↦ (false, self, ground arith, v)
      | inr room ↦ (
        true,
        record self { q = q' },
        ground (arith, eq'),
        record { ordered = w.order; opened = inr (rw hs h0) },
      )
    ]

-- `_fsqueue_inqsorted` on a sequenced frameset with a nonzero session id meets no null sequence
-- number and keeps the queue in order, whatever it decides.
pub inqsorted-IsInput :
    (self : FsQueue) (seqno : Seqno) (fs : FrameSet)
    → IsInput self
    → getseqno fs ≡ some seqno
    → 0 < seqno.sessionid
    → (b : Bool) × (self' : FsQueue) × (inqsorted self fs ≡ some (b, self')) × IsInput self'
unfolding inqsorted
inqsorted-IsInput self seqno fs v e h0 = go (check_session self seqno) refl
  where
    new_number :
        (self' : FsQueue)
        → check_session self seqno ≡ some self'
        → self'.nextseqno ≤ seqno.reqid
        → (b : Bool) × (self' : FsQueue) × (inqsorted self fs ≡ some (b, self')) × IsInput self'
    new_number self' c hr =
        let (v', hs) = check_session-IsInput self seqno v h0 self' c in
        let (b, self2, r, w) = inq_sequenced-IsInput self' seqno fs v' e h0 hs hr in
        (b, self2, ground (arith, e, c, r), w)

    go :
        (o : Option FsQueue)
        → check_session self seqno ≡ o
        → (b : Bool) × (self' : FsQueue) × (inqsorted self fs ≡ some (b, self')) × IsInput self'
    go none c = (false, self, ground (arith, e, c), v)
    go (some self') c = elim (dec_lt seqno.reqid self'.nextseqno) [
      | yes old ↦
          (false, self', ground (arith, e, c), (check_session-IsInput self seqno v h0 self' c).0)
      | no new ↦ new_number self' c (omega arith)
    ]
