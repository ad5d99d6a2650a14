-- ===== src/Tests/Queues.antt =====
-- clientlib/fsqueue.c and clientlib/seqnoframe.c on small queues.
use assimilation_official.Common.{
  ℕ, ◌≡◌, refl, inr, Bool, true, false, none, some, List, [], ◌∷◌, arith, drop,
}
use assimilation_official.Seqno.{Seqno, new_init}
use assimilation_official.FsQueue.{FsQueue, enq, ackthrough, inqsorted, hasqspace1}
use assimilation_official.FsQueue.Frames.{Frame, FrameSet, getseqno, prepend_frame}
use assimilation_official.FsQueue.Output.{IsOutput, enq-IsOutput}
use assimilation_official.FsQueue.Acks.{ackthrough_lem}
use assimilation_official.FsQueue.Input.{IsInput, inqsorted-IsInput, Inserted}
use assimilation_official.FsQueue.Sessions.{inqsorted_current}

-- Frameset type 20 is sequenced.
abbrev seq : ℕ → ℕ → Seqno
seq session reqid = record { sessionid = session; reqid = reqid; qid = 0 }

abbrev numbered : ℕ → ℕ → FrameSet
numbered session reqid = record {
  fstype = 20;
  framelist = Frame.seqno (seq session reqid) ∷ [];
  seqframe = none;
}

abbrev plain : FrameSet
plain = record { fstype = 20; framelist = Frame.other 50 ∷ []; seqframe = none }

abbrev heartbeat : FrameSet
heartbeat = record { fstype = 1; framelist = []; seqframe = none }

abbrev queue : ℕ → ℕ → ℕ → List FrameSet → FsQueue
queue next session maxqlen q = record {
  nextseqno = next;
  sessionid = session;
  maxqlen = maxqlen;
  q = q;
  qid = 0;
  isready = false;
}

-- Numbers 2 and 3 of session 7 wait for an ACK.
abbrev outgoing : FsQueue
outgoing = queue 4 7 2 (numbered 7 2 ∷ numbered 7 3 ∷ [])

outgoing-IsOutput : IsOutput outgoing
unfolding getseqno
outgoing-IsOutput = record {
  positive = omega arith;
  numbered = (refl, (refl, tt));
  opened = inr (omega arith);
  bounded = inr (omega arith);
}

-- Number 5 came in ahead of number 3.
abbrev incoming : FsQueue
incoming = queue 3 7 32 (numbered 7 5 ∷ [])

incoming-IsInput : IsInput incoming
unfolding getseqno
incoming-IsInput = record {
  ordered = (seq 7 5, refl, refl, omega arith, tt);
  opened = inr (omega arith);
}

first_send : enq 9 (queue 1 0 32 []) plain ≡ (
  true,
  queue 2 9 32 (record plain { framelist = Frame.seqno (seq 9 1) ∷ Frame.other 50 ∷ [] } ∷ []),
)
unfolding enq new_init prepend_frame
first_send = refl

sequenced : (s r : ℕ) → getseqno (numbered s r) ≡ some (seq s r)
unfolding getseqno
sequenced s r = refl

enq-IsOutput_example : IsOutput (enq 9 (record outgoing { maxqlen = 32 }) plain).1
enq-IsOutput_example =
    enq-IsOutput 9 (record outgoing { maxqlen = 32 }) plain
      (record {
        positive = outgoing-IsOutput.positive;
        numbered = outgoing-IsOutput.numbered;
        opened = outgoing-IsOutput.opened;
        bounded = inr (omega arith);
      })
      (omega arith) (omega arith) (omega arith)

ackthrough_lem_example :
    ackthrough outgoing (seq 7 2) ≡ (some 1, record outgoing { q = drop 1 outgoing.q })
ackthrough_lem_example = ackthrough_lem outgoing (seq 7 2) outgoing-IsOutput refl (omega arith)

inqsorted-IsInput_example :
    (b : Bool) × (after : FsQueue) × (inqsorted incoming (numbered 7 3) ≡ some (b, after))
    × IsInput after
inqsorted-IsInput_example =
    inqsorted-IsInput incoming (seq 7 3) (numbered 7 3) incoming-IsInput (sequenced 7 3)
      (omega arith)

inqsorted_current_example :
    (q' : List FrameSet) × (inqsorted incoming (numbered 7 4)
      ≡ some (true, record incoming { q = q' }))
    × Inserted 7 3 (seq 7 4) (numbered 7 4) incoming.q q'
unfolding hasqspace1
inqsorted_current_example =
    inqsorted_current incoming (seq 7 4) (numbered 7 4) (sequenced 7 4) incoming-IsInput
      (omega arith) refl (omega arith) refl
