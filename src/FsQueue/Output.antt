-- ===== src/FsQueue/Output.antt =====
-- The output side of clientlib/fsqueue.c: `_fsqueue_enq` numbers framesets one after the other.
use assimilation_official.Common.{
  ℕ, ◌+◌, ◌-◌, ◌≤◌, ◌<◌, ◌^◌, ◌≡◌, refl, ◌⊎◌, inl, inr, true, false, none, some, List, [], ◌∷◌,
  ◌++◌, arith, length, length-append, ◌%◌, Bool-cases, ◌||◌, ◌&&◌, not,
}
use mathlib.Core.Path.{subst}
use assimilation_official.Seqno.{new_init}
use assimilation_official.FsQueue.{FsQueue, is_full, enq, hasqspace, hasqspace1}
use assimilation_official.FsQueue.Frames.{
  Frame, FrameSet, getseqno, prepend_frame, getseqno-prepend_frame, min_seqframeset, is_some,
}

-- The framesets carry the numbers `n`, `n + 1`, … of session `s` and queue `qid`.
abbrev pub Consecutive : ℕ → ℕ → ℕ → List FrameSet → Type 0
Consecutive s qid n [] = Unit
Consecutive s qid n (fs ∷ rest) =
    (getseqno fs ≡ some (record { sessionid = s; reqid = n; qid = qid }))
    × Consecutive s qid (n + 1) rest

-- What an output queue keeps: it holds the last numbers given out, in order.
pub record IsOutput (self : FsQueue) : Type 0 where
  pub positive : length self.q < self.nextseqno
  pub numbered : Consecutive self.sessionid self.qid (self.nextseqno - length self.q) self.q
  pub opened : (self.q ≡ []) ⊎ (0 < self.sessionid)
  pub bounded : (self.maxqlen ≡ 0) ⊎ (length self.q ≤ self.maxqlen)

Consecutive-snoc :
    (s qid n : ℕ) (fs : FrameSet) (q : List FrameSet)
    → Consecutive s qid n q
    → getseqno fs ≡ some (record { sessionid = s; reqid = n + length q; qid = qid })
    → Consecutive s qid n (q ++ (fs ∷ []))
Consecutive-snoc s qid n fs [] c h = ground arith
Consecutive-snoc s qid n fs (x ∷ q) c h =
    (c.0, Consecutive-snoc s qid (n + 1) fs q c.1 (ground arith))

-- What `enq` puts at the tail is found under the next number, in the session of the queue.
pub enq_tail :
    (static : ℕ) (self : FsQueue) (fs : FrameSet) (session : ℕ)
    → fs.seqframe ≡ none
    → min_seqframeset ≤ fs.fstype
    → getseqno (
        prepend_frame fs
          (Frame.seqno (record (new_init static self.nextseqno self.qid) { sessionid = session })))
      ≡ some (record { sessionid = session; reqid = self.nextseqno; qid = self.qid })
unfolding new_init
enq_tail static self fs session e h = ground (
  arith,
  getseqno-prepend_frame fs (record { sessionid = session; reqid = self.nextseqno; qid = self.qid })
      e,
)

-- A queue with one more frameset under the next number.
module _ (self : FsQueue) (x : FrameSet) (session : ℕ) where
  abbrev pushed : FsQueue
  pushed = record self {
    nextseqno = (self.nextseqno + 1) % 2 ^ 64;
    sessionid = session;
    q = self.q ++ (x ∷ []);
  }

  pushed-Consecutive :
      IsOutput self
      → getseqno x ≡ some (record { sessionid = session; reqid = self.nextseqno; qid = self.qid })
      → (self.q ≡ []) ⊎ (session ≡ self.sessionid)
      → Consecutive session self.qid (self.nextseqno - length self.q) (self.q ++ (x ∷ []))
  pushed-Consecutive v e (inl empty) = rw empty (
    subst (λ m. getseqno x ≡ some (record { sessionid = session; reqid = m; qid = self.qid }))
        (omega arith) e,
    tt,
  )
  pushed-Consecutive v e (inr same) =
      rw same (Consecutive-snoc self.sessionid self.qid _ x self.q v.numbered (ground arith))

  pushed-IsOutput :
      IsOutput self
      → getseqno x ≡ some (record { sessionid = session; reqid = self.nextseqno; qid = self.qid })
      → (self.q ≡ []) ⊎ (session ≡ self.sessionid)
      → 0 < session
      → (self.maxqlen ≡ 0) ⊎ (length self.q < self.maxqlen)
      → self.nextseqno + 1 < 2 ^ 64
      → IsOutput pushed
  pushed-IsOutput v e h hs room hn = record {
    positive = omega (arith, length-append self.q (x ∷ []));
    numbered =
        subst (λ m. Consecutive session self.qid m (self.q ++ (x ∷ [])))
          (omega (arith, length-append self.q (x ∷ []), v.positive)) (pushed-Consecutive v e h);
    opened = inr hs;
    bounded = ground (arith, length-append self.q (x ∷ []));
  }

-- `_fsqueue_enq` keeps an output queue numbered without gaps, for a sequenced frameset type, with the
-- static session id set up and short of the wrap-around of the 64-bit counter, whether it accepts
-- the frameset or not.
pub enq-IsOutput :
    (static : ℕ) (self : FsQueue) (fs : FrameSet)
    → IsOutput self
    → 0 < static
    → min_seqframeset ≤ fs.fstype
    → self.nextseqno + 1 < 2 ^ 64
    → IsOutput (enq static self fs).1
unfolding enq new_init
enq-IsOutput static self fs v hs ht hn = elim (Bool-cases (is_some fs.seqframe || is_full self)) [
  | inl no_room ↦ rw no_room v
  | inr room ↦ rw room (
      pushed-IsOutput self _ _ v (enq_tail static self fs _ (ground arith) ht) (ground arith)
        (ground arith) (ground arith) hn)
]

-- `_fsqueue_enq` says yes exactly when `_fsqueue_hasqspace1` does and the frameset has no sequence
-- number yet. Then the queue grows by one, and otherwise all of it is left as it was.
pub enq-hasqspace1 :
    (static : ℕ) (self : FsQueue) (fs : FrameSet)
    → let (accepted, after) = enq static self fs in
      (accepted ≡ (not (is_some fs.seqframe) && hasqspace1 self))
      × (((accepted ≡ true) × (length after.q ≡ length self.q + 1))
          ⊎ ((accepted ≡ false) × (after ≡ self)))
unfolding enq hasqspace1
enq-hasqspace1 static self fs = elim (Bool-cases (is_some fs.seqframe || is_full self)) [
  | inl no_room ↦ (ground arith, rw no_room (inr (refl, refl)))
  | inr room ↦ (ground arith, rw room (inl (refl, length-append self.q _)))
]

pub hasqspace1_empty : (self : FsQueue) → length self.q ≡ 0 → hasqspace1 self ≡ true
unfolding hasqspace1
hasqspace1_empty self h = ground arith

-- On a queue within its bound `_fsqueue_hasqspace` answers yes to every request, however large,
-- as long as the sum of the bound and the request does not wrap.
pub hasqspace_always :
    (self : FsQueue) (desired : ℕ)
    → IsOutput self
    → self.maxqlen + desired < 2 ^ 32
    → hasqspace self desired ≡ true
unfolding hasqspace
hasqspace_always self desired v h = ground arith
