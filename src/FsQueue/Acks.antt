-- ===== src/FsQueue/Acks.antt =====
-- The output side of clientlib/fsqueue.c: `_fsqueue_ackthrough` removes exactly the framesets that an
-- ACK covers.
use assimilation_official.Common.{
  ℕ, suc, ◌+◌, ◌-◌, ◌≤◌, ◌<◌, ◌≡◌, ◌⊎◌, inl, inr, ◌≢◌, none, some, List, [], ◌∷◌, arith, length,
  drop, ◌==◌, length-drop, drop-nil, drop_of_zero, drop-cons, zero, Bool-cases, ◌||◌, leb, not, ◌↔◌,
  sym,
}
use native.Mathlib.Nat.{add-zero}
use mathlib.Core.Path.{subst}
use assimilation_official.Seqno.{Seqno}
use assimilation_official.FsQueue.{FsQueue, ack_loop, ackthrough}
use assimilation_official.FsQueue.Frames.{FrameSet}
use assimilation_official.FsQueue.Output.{Consecutive, IsOutput}

Consecutive-drop :
    (s qid n k : ℕ) (q : List FrameSet)
    → Consecutive s qid n q
    → Consecutive s qid (n + k) (drop k q)
Consecutive-drop s qid n zero q c = rw add-zero c
Consecutive-drop s qid n (suc k) [] c = tt
Consecutive-drop s qid n (suc k) (fs ∷ q) c =
    let ih = Consecutive-drop s qid (n + 1) k q c.1 in
    let e : n + 1 + k ≡ n + suc k = omega arith in rw e at ih

-- The loop flushes the numbers up to `reqid`, counts them, and leaves the others alone.
ack_loop-drop :
    (s qid n reqid : ℕ) (q : List FrameSet)
    → Consecutive s qid n q
    → reqid < n + length q
    → (ack_loop reqid q).1 ≡ drop (suc reqid - n) q
unfolding ack_loop
ack_loop-drop s qid n reqid [] c h = sym (drop-nil FrameSet _)
ack_loop-drop s qid n reqid (fs ∷ q) c h = ground (
  arith,
  ack_loop-drop s qid (n + 1) reqid q c.1,
  drop_of_zero (suc reqid - n) (fs ∷ q),
  drop-cons (suc reqid - n) (suc reqid - (n + 1)) fs q,
)

ack_loop_count :
    (s qid n reqid : ℕ) (q : List FrameSet)
    → Consecutive s qid n q
    → reqid < n + length q
    → (ack_loop reqid q).0 ≡ suc reqid - n
unfolding ack_loop
ack_loop_count s qid n reqid [] c h = omega arith
ack_loop_count s qid n reqid (fs ∷ q) c h = ground (arith, ack_loop_count s qid (n + 1) reqid q c.1)

length-ack_loop : (reqid : ℕ) (q : List FrameSet) → length (ack_loop reqid q).1 ≤ length q
unfolding ack_loop
length-ack_loop reqid [] = omega arith
length-ack_loop reqid (fs ∷ q) = ground (arith, length-ack_loop reqid q)

pub length-ackthrough :
    (self : FsQueue) (seq : Seqno) → length (ackthrough self seq).1.q ≤ length self.q
unfolding ackthrough
length-ackthrough self seq = ground (arith, length-ack_loop seq.reqid self.q)

-- On an output queue numbered without gaps, an ACK of its session for a number given out removes the
-- framesets up to that number, and no others, and returns how many there were.
pub ackthrough_lem :
    (self : FsQueue) (seq : Seqno)
    → IsOutput self
    → seq.sessionid ≡ self.sessionid
    → seq.reqid < self.nextseqno
    → let k = seq.reqid + 1 - (self.nextseqno - length self.q) in
      ackthrough self seq ≡ (some k, record self { q = drop k self.q })
unfolding ackthrough
ackthrough_lem self seq v hs hr = ground (
  arith,
  ack_loop-drop self.sessionid self.qid (self.nextseqno - length self.q) seq.reqid self.q
      v.numbered,
  ack_loop_count self.sessionid self.qid (self.nextseqno - length self.q) seq.reqid self.q
      v.numbered,
)

-- `_fsqueue_ackthrough` returns -1 exactly for an ACK of another session or for a number not given
-- out yet.
pub ackthrough-none_iff :
    (self : FsQueue) (seq : Seqno)
    → ((ackthrough self seq).0 ≡ none)
      ↔ ((seq.sessionid ≢ self.sessionid) ⊎ (self.nextseqno ≤ seq.reqid))
unfolding ackthrough
ackthrough-none_iff self seq = ground arith

dropped-IsOutput :
    (self : FsQueue) (k : ℕ)
    → IsOutput self
    → k ≤ length self.q
    → IsOutput (record self { q = drop k self.q })
dropped-IsOutput self k v h = record {
  positive = omega (arith, v.positive, length-drop k self.q);
  numbered =
      subst (λ m. Consecutive self.sessionid self.qid m (drop k self.q))
        (omega (arith, length-drop k self.q, v.positive))
        (Consecutive-drop self.sessionid self.qid _ k self.q v.numbered);
  opened = elim v.opened [ inl e ↦ inl (rw e (drop-nil FrameSet k)) | inr p ↦ inr p ];
  bounded = omega (arith, v.bounded, length-drop k self.q);
}

-- An output queue is still numbered without gaps after any ACK, good or bad.
pub ackthrough-IsOutput :
    (self : FsQueue) (seq : Seqno) → IsOutput self → IsOutput (ackthrough self seq).1
ackthrough-IsOutput self seq v =
    elim (Bool-cases (not (seq.sessionid == self.sessionid) || leb self.nextseqno seq.reqid)) [
      | inl bad ↦ unfold ackthrough in rw bad v
      | inr good ↦
          rw (ackthrough_lem self seq v (ground arith) (ground arith))
            (dropped-IsOutput self _ v (ground (arith, v.positive)))
    ]

-- An ACK touches the framesets of the queue only.
pub ackthrough_keeps :
    (self : FsQueue) (seq : Seqno)
    → ((ackthrough self seq).1.sessionid ≡ self.sessionid)
      × ((ackthrough self seq).1.nextseqno ≡ self.nextseqno)
unfolding ackthrough
ackthrough_keeps self seq = (ground arith, ground arith)
