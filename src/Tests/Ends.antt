-- ===== src/Tests/Ends.antt =====
-- The two ends of a connection of clientlib/fsprotocol.c on a small run.
use assimilation_official.Common.{◌≡◌, refl, inl, inr, true, some, List, [], ◌∷◌, ◌++◌, arith}
use assimilation_official.Seqno.{new_init, compare}
use assimilation_official.FsQueue
use assimilation_official.FsQueue.{FsQueue}
use assimilation_official.FsQueue.Frames.{FrameSet, getseqno, prepend_frame, find_seqno}
use assimilation_official.FsQueue.Input.{IsInput}
use assimilation_official.FsQueue.Output.{IsOutput}
use assimilation_official.FsProtocol.Receive.{take_head, is_next}
use assimilation_official.FsProtocol.Channel.{Channel, start, accept, arrive, deliver, stamped}
use assimilation_official.FsProtocol.Prefix.{Channel-prefix}
use assimilation_official.FsProtocol.Progress.{due_readable}
use assimilation_official.Tests.Protocol.{plain, seq, numbered, inq, inq-IsInput}

abbrev empty : FsQueue
empty = inq 1 []

empty-IsOutput : IsOutput empty
empty-IsOutput = record {
  positive = omega arith;
  numbered = tt;
  opened = inl refl;
  bounded = inr (omega arith);
}

abbrev first : FrameSet
first = stamped empty plain

-- One frameset is accepted, comes in twice, and is read.
one_read : Channel empty empty (first ∷ []) (first ∷ []) (FsQueue.enq 9 empty plain).1 (inq 2 [])
unfolding FsQueue.enq FsQueue.inqsorted FsQueue.check_session FsQueue.inq_sequenced
    FsQueue.insert_sorted FsQueue.qhead FsQueue.deq take_head getseqno find_seqno prepend_frame
    new_init compare
one_read =
    deliver {inq = inq 1 (first ∷ [])}
      (arrive {inq = inq 1 (first ∷ [])} {after = inq 1 (first ∷ [])}
        (arrive {inq = empty} {after = inq 1 (first ∷ [])}
          (accept start 9 plain (omega arith) (omega arith) (omega arith) refl) first (inl refl)
          refl)
        first (inl refl) refl)
      first refl refl (omega arith) refl

Channel-prefix_example : (later : List FrameSet) × ((first ∷ []) ≡ later ++ (first ∷ []))
Channel-prefix_example =
    Channel-prefix empty empty empty-IsOutput inq-IsInput refl (omega arith) refl refl one_read

sequenced : getseqno (numbered 1) ≡ some (seq 1)
unfolding getseqno find_seqno
sequenced = refl

-- Number 2 is there already.
abbrev gap : FsQueue
gap = inq 1 (numbered 2 ∷ [])

gap-IsInput : IsInput gap
unfolding getseqno
gap-IsInput = record { ordered = (seq 2, refl, refl, omega arith, tt); opened = inr (omega arith) }

due_readable_example :
    (after : FsQueue) × (head : FrameSet) × (FsQueue.inqsorted gap (numbered 1)
      ≡ some (true, after))
    × (FsQueue.qhead after ≡ some head)
    × (is_next (getseqno head) after ≡ true)
unfolding FsQueue.hasqspace1
due_readable_example =
    due_readable gap (seq 1) (numbered 1) sequenced gap-IsInput (omega arith) refl refl refl
