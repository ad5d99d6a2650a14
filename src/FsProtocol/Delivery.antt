-- ===== src/FsProtocol/Delivery.antt =====
-- The input side of the reliable protocol over a whole session: `_fsqueue_inqsorted` of
-- clientlib/fsqueue.c and the dequeuing of `_fsprotocol_read` in clientlib/fsprotocol.c, in any order,
-- with datagrams lost, repeated, reordered or replayed from earlier sessions.
use assimilation_official.Common.{
  ℕ, ◌+◌, ◌≤◌, ◌<◌, ◌^◌, ◌≡◌, refl, inr, Bool, true, some, List, [], ◌∷◌, arith, All, sym, ◌∙◌, ap,
}
use mathlib.Core.Path.{subst}
use mathlib.Core.List.{Mem, mem-cons_of_mem, mem-cons_self}
use assimilation_official.Seqno.{Seqno}
use assimilation_official.FsQueue
use assimilation_official.FsQueue.{FsQueue}
use assimilation_official.FsQueue.Frames.{FrameSet, getseqno}
use assimilation_official.FsQueue.Input.{IsInput, Ascending, inqsorted-IsInput}
use assimilation_official.FsQueue.Keeps.{inqsorted_keeps}
use assimilation_official.FsProtocol.Receive.{take_head, is_next}

-- What can happen to an input queue that starts as `q0`: the framesets that arrived and those that
-- were read, each newest first, and the queue.
pub data Session (q0 : FsQueue) : List FrameSet → List FrameSet → FsQueue → Type 0 where
  start : Session q0 [] [] q0
  arrive :
      {came read : List FrameSet} {q after : FsQueue} {b : Bool}
      → Session q0 came read q
      → (fs : FrameSet) (seq : Seqno) → getseqno fs ≡ some seq
      → 0 < seq.sessionid
      → seq.sessionid ≤ q.sessionid
      → FsQueue.inqsorted q fs ≡ some (b, after)
      → Session q0 (fs ∷ came) read after
  deliver :
      {came read : List FrameSet} {q after : FsQueue}
      → Session q0 came read q
      → (fs : FrameSet) → FsQueue.qhead q ≡ some fs
      → is_next (getseqno fs) q ≡ true
      → q.nextseqno + 1 < 2 ^ 64
      → after ≡ take_head fs q
      → Session q0 came (fs ∷ read) after

-- Newest first, the framesets carry the numbers below `next` down to `first`, each once.
abbrev pub CountDown : ℕ → ℕ → List FrameSet → Type 0
CountDown first next [] = next ≡ first
CountDown first next (fs ∷ older) =
    (seq : Seqno) × (getseqno fs ≡ some seq)
    × (next ≡ seq.reqid + 1)
    × CountDown first seq.reqid older

-- What holds all through a session.
pub record InOrder (q0 : FsQueue) (came read : List FrameSet) (q : FsQueue) : Type 0 where
  pub input : IsInput q
  pub same_session : q.sessionid ≡ q0.sessionid
  pub numbers : CountDown q0.nextseqno q.nextseqno read
  pub queued_came : All (λ fs. Mem fs came) q.q
  pub read_came : All (λ fs. Mem fs came) read

All-Mem-cons :
    (fs : FrameSet) (came q : List FrameSet)
    → All (λ f. Mem f came) q
    → All (λ f. Mem f (fs ∷ came)) q
All-Mem-cons fs came [] h = tt
All-Mem-cons fs came (f ∷ q) h = (mem-cons_of_mem fs h.0, All-Mem-cons fs came q h.1)

-- A ready head of an ordered queue carries the number that is expected.
pub record Ready (P : FrameSet → Type 0) (q : FsQueue) (fs : FrameSet) : Type 0 where
  pub seq : Seqno
  pub sequenced : getseqno fs ≡ some seq
  pub due : seq.reqid ≡ q.nextseqno
  pub came : P fs
  pub rest : All P (take_head fs q).q
  pub next : (take_head fs q).nextseqno ≡ q.nextseqno + 1
  pub session : (take_head fs q).sessionid ≡ q.sessionid
  pub order : Ascending q.sessionid (q.nextseqno + 1) (take_head fs q).q

pub qhead-Ready :
    (P : FrameSet → Type 0) (q : FsQueue) (l : List FrameSet) (fs : FrameSet)
    → q.q ≡ l
    → Ascending q.sessionid q.nextseqno l
    → All P l
    → FsQueue.qhead q ≡ some fs
    → is_next (getseqno fs) q ≡ true
    → q.nextseqno + 1 < 2 ^ 64
    → Ready P q fs
unfolding take_head FsQueue.qhead FsQueue.deq
qhead-Ready P q [] fs e a ps eh en hw = absurd (ground arith)
qhead-Ready P q (x ∷ l) fs e (seq, es, hs, hl, a) ps eh en hw =
    let same : x ≡ fs = ground arith in
    let es' : getseqno fs ≡ some seq = rw (← same) es in
    let due : seq.reqid ≡ q.nextseqno = ground arith in
    let left : (take_head fs q).q ≡ l = ground arith in
    record {
      seq = seq;
      sequenced = es';
      due = due;
      came = subst P same ps.0;
      rest = subst (All P) (sym left) ps.1;
      next = ground arith;
      session = ground arith;
      order =
          subst (Ascending q.sessionid (q.nextseqno + 1)) (sym left)
            (subst (λ m. Ascending q.sessionid (m + 1) l) due a);
    }

-- In every session that starts with an empty input queue whose session is set, what is read are
-- framesets of the consecutive numbers from the first expected one on, in order and each number once,
-- every one of them came in, and the queue stays ordered and in its session.
pub Session-InOrder :
    (q0 : FsQueue) {came read : List FrameSet} {q : FsQueue}
    → IsInput q0
    → q0.q ≡ []
    → 0 < q0.sessionid
    → Session q0 came read q
    → InOrder q0 came read q
Session-InOrder q0 v e h0 start = record {
  input = v;
  same_session = refl;
  numbers = refl;
  queued_came = rw e tt;
  read_came = tt;
}
Session-InOrder q0 v e h0 (arrive {came} {read} {q} {after} {b} s fs seq es hs hl r) =
    let ih = Session-InOrder q0 v e h0 s in
    let (b', after', r', w) = inqsorted-IsInput q seq fs ih.input es hs in
    let same : after' ≡ after = ground (arith, r, r') in
    let (kn, ks, ka) =
      inqsorted_keeps (λ f. Mem f (fs ∷ came)) q seq fs es (rw ih.same_session h0) hl mem-cons_self
        (All-Mem-cons fs came q.q ih.queued_came) r in
    record {
      input = subst IsInput same w;
      same_session = ks ∙ ih.same_session;
      numbers = subst (λ n. CountDown q0.nextseqno n read) (sym kn) ih.numbers;
      queued_came = ka;
      read_came = All-Mem-cons fs came read ih.read_came;
    }
Session-InOrder q0 v e h0 (deliver {came} {read} {q} {after} s fs eh en hw ea) =
    let ih = Session-InOrder q0 v e h0 s in
    let t = qhead-Ready (λ f. Mem f came) q q.q fs refl ih.input.ordered ih.queued_came eh en hw in
    rw ea (record {
      input = record {
        ordered = rw (t.next, t.session) t.order;
        opened = inr (rw (t.session, ih.same_session) h0);
      };
      same_session = t.session ∙ ih.same_session;
      numbers = (
        t.seq,
        t.sequenced,
        t.next ∙ ap (λ n. n + 1) (sym t.due),
        subst (λ n. CountDown q0.nextseqno n read) (sym t.due) ih.numbers,
      );
      queued_came = t.rest;
      read_came = (t.came, ih.read_came);
    })
