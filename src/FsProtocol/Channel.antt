-- ===== src/FsProtocol/Channel.antt =====
-- The two ends of a connection together: the output queue of one (clientlib/fsqueue.c), the input
-- queue of the other, and a network between them that loses, repeats and reorders framesets.
-- Specification: the framesets read are a prefix of those that the sender accepted.
use assimilation_official.Common.{
  ℕ, ◌+◌, ◌≤◌, ◌<◌, ◌^◌, ◌≡◌, refl, ◌⊎◌, inl, inr, Bool, true, none, some, List, [], ◌∷◌, ◌++◌,
  arith, All, sym, ◌∙◌, ap,
}
use mathlib.Core.Path.{subst}
use assimilation_official.Seqno.{Seqno, new_init}
use assimilation_official.FsQueue
use assimilation_official.FsQueue.{FsQueue, is_full}
use assimilation_official.FsQueue.Frames.{Frame, FrameSet, getseqno, prepend_frame, min_seqframeset}
use assimilation_official.FsQueue.Input.{IsInput, inqsorted-IsInput}
use assimilation_official.FsQueue.Output.{IsOutput, enq-IsOutput, enq_tail}
use assimilation_official.FsQueue.Acks.{ackthrough-IsOutput, ackthrough_keeps}
use assimilation_official.FsQueue.Keeps.{inqsorted_keeps}
use assimilation_official.FsProtocol.Receive.{take_head, is_next}
use assimilation_official.FsProtocol.Delivery.{CountDown, qhead-Ready}

-- A frameset is one of a list.
abbrev pub In : FrameSet → List FrameSet → Type 0
In f [] = ⊥
In f (g ∷ l) = (f ≡ g) ⊎ In f l

-- The frameset as the output queue `outq` numbers it.
abbrev pub stamped : FsQueue → FrameSet → FrameSet
stamped outq fs =
    prepend_frame fs
      (Frame.seqno (record { sessionid = outq.sessionid; reqid = outq.nextseqno; qid = outq.qid }))

-- What can happen to an output queue and an input queue that start as `out0` and `in0`: the framesets
-- that the sender accepted and those that the receiver read, each newest first, and the two queues.
-- Whatever was accepted can arrive at any time, any number of times, or never.
pub data Channel (out0 in0 : FsQueue)
    : List FrameSet → List FrameSet → FsQueue → FsQueue → Type 0 where
  start : Channel out0 in0 [] [] out0 in0
  accept :
      {accepted read : List FrameSet} {outq inq : FsQueue}
      → Channel out0 in0 accepted read outq inq
      → (static : ℕ) (fs : FrameSet) → 0 < static
      → min_seqframeset ≤ fs.fstype
      → outq.nextseqno + 1 < 2 ^ 64
      → (FsQueue.enq static outq fs).0 ≡ true
      → Channel out0 in0 (stamped outq fs ∷ accepted) read (FsQueue.enq static outq fs).1 inq
  acknowledge :
      {accepted read : List FrameSet} {outq inq : FsQueue}
      → Channel out0 in0 accepted read outq inq
      → (seq : Seqno) → Channel out0 in0 accepted read (FsQueue.ackthrough outq seq).1 inq
  arrive :
      {accepted read : List FrameSet} {outq inq after : FsQueue} {b : Bool}
      → Channel out0 in0 accepted read outq inq
      → (fs : FrameSet) → In fs accepted
      → FsQueue.inqsorted inq fs ≡ some (b, after)
      → Channel out0 in0 accepted read outq after
  deliver :
      {accepted read : List FrameSet} {outq inq after : FsQueue}
      → Channel out0 in0 accepted read outq inq
      → (fs : FrameSet) → FsQueue.qhead inq ≡ some fs
      → is_next (getseqno fs) inq ≡ true
      → inq.nextseqno + 1 < 2 ^ 64
      → after ≡ take_head fs inq
      → Channel out0 in0 accepted (fs ∷ read) outq after

-- Newest first, the framesets carry the numbers of session `s` below `next` down to `first`.
abbrev pub Given : ℕ → ℕ → ℕ → List FrameSet → Type 0
Given s first next [] = next ≡ first
Given s first next (fs ∷ older) =
    (seq : Seqno) × (getseqno fs ≡ some seq)
    × (seq.sessionid ≡ s)
    × (next ≡ seq.reqid + 1)
    × Given s first seq.reqid older

-- What holds of the two ends at all times.
pub record Carried (s first : ℕ) (accepted read : List FrameSet) (outq inq : FsQueue) : Type 0 where
  pub output : IsOutput outq
  pub out_session : outq.sessionid ≡ s
  pub given : Given s first outq.nextseqno accepted
  pub input : IsInput inq
  pub in_session : inq.sessionid ≡ s
  pub numbers : CountDown first inq.nextseqno read
  pub queued : All (λ f. In f accepted) inq.q
  pub read_given : All (λ f. In f accepted) read

All-In-cons :
    (g : FrameSet) (accepted l : List FrameSet)
    → All (λ f. In f accepted) l
    → All (λ f. In f (g ∷ accepted)) l
All-In-cons g accepted [] h = tt
All-In-cons g accepted (f ∷ l) h = (inr h.0, All-In-cons g accepted l h.1)

-- A frameset that was accepted has a number of the session.
pub In-Given :
    (s first next : ℕ) (accepted : List FrameSet) (f : FrameSet)
    → Given s first next accepted
    → In f accepted
    → (seq : Seqno) × (getseqno f ≡ some seq) × (seq.sessionid ≡ s) × (seq.reqid < next)
In-Given s first next [] f v i = elim i [ ]
In-Given s first next (g ∷ l) f (seq, e, es, en, rest) (inl h) = (seq, rw h e, es, omega arith)
In-Given s first next (g ∷ l) f (seq, e, es, en, rest) (inr h) =
    let (seq', e', es', lt') = In-Given s first seq.reqid l f rest h in (seq', e', es', omega arith)

-- An open output queue that accepts a frameset gives it its number.
enq_open :
    (static : ℕ) (outq : FsQueue) (fs : FrameSet)
    → 0 < outq.sessionid
    → outq.nextseqno + 1 < 2 ^ 64
    → (FsQueue.enq static outq fs).0 ≡ true
    → (fs.seqframe ≡ none)
      × ((FsQueue.enq static outq fs).1
          ≡ record outq { nextseqno = outq.nextseqno + 1; q = outq.q ++ (stamped outq fs ∷ []) })
unfolding FsQueue.enq new_init
enq_open static outq fs h hn e = (ground arith, ground arith)

pub Channel-Carried :
    (s first : ℕ) (out0 in0 : FsQueue) {accepted read : List FrameSet} {outq inq : FsQueue}
    → 0 < s
    → Carried s first [] [] out0 in0
    → Channel out0 in0 accepted read outq inq
    → Carried s first accepted read outq inq
unfolding new_init
Channel-Carried s first out0 in0 hs v start = v
Channel-Carried s first out0 in0 hs v
      (accept {accepted} {read} {outq} {inq} c static fs h0 ht hn ok) =
    let ih = Channel-Carried s first out0 in0 hs v c in
    let open_session : 0 < outq.sessionid = rw ih.out_session hs in
    let (fresh, e) = enq_open static outq fs open_session hn ok in
    let seq : Seqno = record {
      sessionid = outq.sessionid;
      reqid = outq.nextseqno;
      qid = outq.qid;
    } in
    record {
      output = enq-IsOutput static outq fs ih.output h0 ht hn;
      out_session = rw e ih.out_session;
      given =
          rw e
            (seq, enq_tail static outq fs outq.sessionid fresh ht, ih.out_session, refl, ih.given);
      input = ih.input;
      in_session = ih.in_session;
      numbers = ih.numbers;
      queued = All-In-cons (stamped outq fs) accepted inq.q ih.queued;
      read_given = All-In-cons (stamped outq fs) accepted read ih.read_given;
    }
Channel-Carried s first out0 in0 hs v (acknowledge {accepted} {read} {outq} {inq} c seq) =
    let ih = Channel-Carried s first out0 in0 hs v c in
    let (ks, kn) = ackthrough_keeps outq seq in
    record {
      output = ackthrough-IsOutput outq seq ih.output;
      out_session = ks ∙ ih.out_session;
      given = subst (λ n. Given s first n accepted) (sym kn) ih.given;
      input = ih.input;
      in_session = ih.in_session;
      numbers = ih.numbers;
      queued = ih.queued;
      read_given = ih.read_given;
    }
Channel-Carried s first out0 in0 hs v (arrive {accepted} {read} {outq} {inq} {after} {b} c fs i r) =
    let ih = Channel-Carried s first out0 in0 hs v c in
    let (seq, es, ess, lt') = In-Given s first outq.nextseqno accepted fs ih.given i in
    let (b', after', r', w) = inqsorted-IsInput inq seq fs ih.input es (rw ess hs) in
    let same : after' ≡ after = ground (arith, r, r') in
    let (kn, ks, ka) =
      inqsorted_keeps (λ f. In f accepted) inq seq fs es (rw ih.in_session hs)
        (omega (arith, ess, ih.in_session)) i ih.queued r in
    record {
      output = ih.output;
      out_session = ih.out_session;
      given = ih.given;
      input = subst IsInput same w;
      in_session = ks ∙ ih.in_session;
      numbers = subst (λ n. CountDown first n read) (sym kn) ih.numbers;
      queued = ka;
      read_given = ih.read_given;
    }
Channel-Carried s first out0 in0 hs v
      (deliver {accepted} {read} {outq} {inq} {after} c fs eh en hw ea) =
    let ih = Channel-Carried s first out0 in0 hs v c in
    let t =
      qhead-Ready (λ f. In f accepted) inq inq.q fs refl ih.input.ordered ih.queued eh en hw in
    rw ea (record {
      output = ih.output;
      out_session = ih.out_session;
      given = ih.given;
      input = record {
        ordered = rw (t.next, t.session) t.order;
        opened = inr (rw (t.session, ih.in_session) hs);
      };
      in_session = t.session ∙ ih.in_session;
      numbers = (
        t.seq,
        t.sequenced,
        t.next ∙ ap (λ n. n + 1) (sym t.due),
        subst (λ n. CountDown first n read) (sym t.due) ih.numbers,
      );
      queued = t.rest;
      read_given = (t.came, ih.read_given);
    })
