-- ===== src/FsProtocol/Progress.antt =====
-- When the frameset that a connection waits for comes in, there is something to read
-- (`_fsqueue_inqsorted` of clientlib/fsqueue.c, and the test of `_fsprotocol_read` in
-- clientlib/fsprotocol.c).
use assimilation_official.Common.{
  ℕ, ◌+◌, ◌<◌, ◌≡◌, refl, true, Option, none, some, List, [], ◌∷◌, arith, ◌∙◌,
}
use native.Mathlib.Decide.{ℕ_discrete}
use assimilation_official.Seqno.{Seqno}
use assimilation_official.FsQueue
use assimilation_official.FsQueue.{FsQueue}
use assimilation_official.FsQueue.Frames.{FrameSet, getseqno}
use assimilation_official.FsQueue.Input.{IsInput, Ascending, find_reqid, find_reqid_below, or_new}
use assimilation_official.FsQueue.Sessions.{inqsorted_current}
use assimilation_official.FsProtocol.Receive.{is_next}

-- The lowest number of an ascending list that is in the list is at its head.
lowest_head :
    (s low : ℕ) (q : List FrameSet) (fs : FrameSet)
    → Ascending s low q
    → find_reqid low q ≡ some fs
    → (head : FrameSet) × (rest : List FrameSet) × (seq : Seqno) × (q ≡ head ∷ rest)
      × (getseqno head ≡ some seq)
      × (seq.reqid ≡ low)
lowest_head s low [] fs a h = absurd (ground arith)
lowest_head s low (x ∷ q) fs (seq, e, es, el, a) h = elim (ℕ_discrete seq.reqid low) [
  | yes same ↦ (x, q, seq, refl, e, same)
  | no other ↦ absurd (ground (arith, find_reqid_below s (seq.reqid + 1) low q a))
]

found_new : (o : Option FrameSet) (fs : FrameSet) → (f : FrameSet) × (or_new o fs ≡ some f)
found_new none fs = (fs, refl)
found_new (some old) fs = (old, refl)

-- In an open session, the frameset under the number that is expected next, coming in to an input queue
-- with room, makes the queue ready: it goes in, and the head of the queue is one that
-- `_fsprotocol_read` may take.
pub due_readable :
    (self : FsQueue) (seqno : Seqno) (fs : FrameSet)
    → getseqno fs ≡ some seqno
    → IsInput self
    → 0 < self.sessionid
    → seqno.sessionid ≡ self.sessionid
    → seqno.reqid ≡ self.nextseqno
    → FsQueue.hasqspace1 self ≡ true
    → (after : FsQueue) × (head : FrameSet) × (FsQueue.inqsorted self fs ≡ some (true, after))
      × (FsQueue.qhead after ≡ some head)
      × (is_next (getseqno head) after ≡ true)
unfolding FsQueue.qhead
due_readable self seqno fs e v h0 hs hr room =
    let (q', r, w) = inqsorted_current self seqno fs e v h0 hs (omega arith) room in
    let (f, new) = found_new (find_reqid self.nextseqno self.q) fs in
    let there : find_reqid self.nextseqno q' ≡ some f =
      w.found self.nextseqno ∙ ground (arith, new) in
    let (head, rest, seq, eq', es, er) =
      lowest_head self.sessionid self.nextseqno q' f w.order there in
    (record self { q = q' }, head, r, ground (arith, eq'), ground (arith, es, er))
