-- ===== src/FsProtocol/Transmit.antt =====
-- The output side of clientlib/fsprotocol.c: `_fsprotocol_xmitifwecan` and `_fsprotocol_send1`, and
-- the automaton tied to them.
use assimilation_official.Common.{
  ℕ, ◌+◌, Bool, true, false, not, ◌&&◌, Option, none, some, List, [], ◌∷◌, length, ltb, leb, ◌==◌,
  if◌then◌else◌,
}
use assimilation_official.Seqno.{Seqno, Cmp, compare}
use assimilation_official.FsQueue
use assimilation_official.FsQueue.{FsQueue}
use assimilation_official.FsQueue.Frames.{FrameSet, getseqno, is_some}
use assimilation_official.FsProtocol.Fsa.{Input, reqsend, acktimeout, in_shutdown}
use assimilation_official.FsProtocol.Types.{Conn}
use assimilation_official.FsProtocol.Conn.{fsa_with, transmit, is_empty}

-- The automaton where it sends nothing. The actions of REQSEND and ACKTIMEOUT do not send, so this
-- is all that the two functions below need; it breaks the circle of calls.
abbrev pub fsa_plain : Input → Option FrameSet → Conn → Conn
fsa_plain = fsa_with (λ fs c. c)

-- `lastseq != NULL && seq != NULL && compare(seq, lastseq) <= 0`
abbrev sent_before : Option Seqno → Option Seqno → Bool
sent_before none seq = false
sent_before (some last) none = false
sent_before (some last) (some seq) = elim (compare seq last) [ Cmp.gt ↦ false | _ ↦ true ]

-- The end of a round of the loop: `lastseqsent` is the frameset just sent.
abbrev note_sent : Option Seqno → Conn → Conn
note_sent none c = c
note_sent (some seq) c = record c { fspe = record (c.fspe) { lastseqsent = some seq } }

-- A frameset of the output queue that was sent before, which the loop passes over.
abbrev pub is_old : FrameSet → Conn → Bool
is_old fs c = sent_before c.fspe.lastseqsent (getseqno fs)

-- One round of the loop of `_fsprotocol_xmitifwecan`.
unfoldable pub send_new : FrameSet → Conn → Conn
send_new fs c = if is_old fs c then c else note_sent (getseqno fs) (transmit fs c)

-- `fspe->outq->_q->length >= parent->window_size`
abbrev pub at_window : Conn → Bool
at_window c = leb c.parent.window_size (length c.fspe.outq.q)

-- The loop over the output queue. It breaks after a round that sent, at the window.
unfoldable pub xmit_new : List FrameSet → Conn → Conn
xmit_new [] c = c
xmit_new (fs ∷ rest) c =
    let c1 : Conn = send_new fs c in
    let more : Conn = xmit_new rest c1 in
    if not (is_old fs c) && is_some (getseqno fs) && at_window c1 then c1 else more

-- The retransmission of the head of the output queue, once its time has come.
unfoldable pub retransmit : ℕ → FrameSet → Conn → Conn
retransmit now fs c =
    let c1 : Conn =
      transmit fs
        (record c { fspe = record (c.fspe) { nextrexmit = now + c.parent.rexmit_interval } }) in
    if ltb c1.fspe.acktimeout now
    then (let c2 : Conn = fsa_plain acktimeout none c1 in
        record c2 { fspe = record (c2.fspe) { acktimeout = now + c2.parent.acktimeout } })
    else c1

-- The sending part of `_fsprotocol_xmitifwecan`: short of the window it looks for new framesets.
unfoldable pub xmit_window : Conn → Conn
xmit_window c =
    if ltb (length c.fspe.outq.q) c.parent.window_size then xmit_new c.fspe.outq.q c else c

-- The timer part of `_fsprotocol_xmitifwecan`.
unfoldable pub xmit_timers : ℕ → Conn → Conn
xmit_timers now c =
    if c.fspe.nextrexmit == 0 && not (is_empty c.fspe.outq)
    then record c { fspe = record (c.fspe) { nextrexmit = now + c.parent.rexmit_interval } }
    else if not (c.fspe.nextrexmit == 0) && ltb c.fspe.nextrexmit now
    then elim (FsQueue.qhead c.fspe.outq) [
      | some fs ↦ retransmit now fs c
      | none ↦ record c { fspe = record (c.fspe) { nextrexmit = 0 } }
    ]
    else c

-- `_fsprotocol_xmitifwecan`
unfoldable pub xmitifwecan : ℕ → Conn → Conn
xmitifwecan now c =
    let orig_empty : Bool = is_empty c.fspe.outq in
    let c2 : Conn = xmit_timers now (xmit_window c) in
    if orig_empty && not (is_empty c2.fspe.outq)
    then record c2 { parent = record (c2.parent) { unacked = c2.fspe.key ∷ c2.parent.unacked } }
    else c2

-- The first half of `_fsprotocol_send1`: an idle connection joins those that wait for ACKs.
unfoldable pub start_timers : ℕ → Conn → Conn
start_timers now c =
    if is_empty c.fspe.outq
    then record c {
      parent = record (c.parent) { unacked = c.fspe.key ∷ c.parent.unacked };
      fspe = record (c.fspe) {
        nextrexmit = now + c.parent.rexmit_interval;
        acktimeout = now + c.parent.acktimeout;
      };
    }
    else c

-- `outq->enq` and the count of the sends, tried or done.
unfoldable pub enqueue : ℕ → FrameSet → Conn → Bool × Conn
enqueue static fs c =
    let (ret, outq) = FsQueue.enq static c.fspe.outq fs in
    (
      ret,
      record {
        parent = record (c.parent) { reliablesends = c.parent.reliablesends + 1 };
        fspe = record (c.fspe) { outq = outq };
      },
    )

-- `_fsprotocol_send1` on the connection that `addconn` found or made.
unfoldable pub send1 : ℕ → ℕ → FrameSet → Conn → Bool × Conn
send1 now static fs c =
    if in_shutdown c.fspe.state
    then (true, c)
    else (let (ret, c2) = enqueue static fs (start_timers now (fsa_plain reqsend none c)) in
        (ret, xmitifwecan now c2))

-- `_fsprotocol_fsa`, whose CONNSHUT and CONNNAK go out by `_fsprotocol_send1`.
unfoldable pub fsa : ℕ → ℕ → Input → Option FrameSet → Conn → Conn
fsa now static input fs c = fsa_with (λ shut c'. (send1 now static shut c').1) input fs c
