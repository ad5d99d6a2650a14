-- ===== src/FsProtocol/Conn.antt =====
-- The functions of clientlib/fsprotocol.c that work on one connection: acknowledging, resetting,
-- the finite state automaton, transmitting and sending.
-- An entry point reads the clock once: the argument `now` is that reading, in microseconds.
-- `static` is the static session id of clientlib/seqnoframe.c, once it has been set up.
pub mod Automaton
use assimilation_official.Common.{
  ℕ, zero, ◌+◌, ◌%◌, ◌^◌, Bool, true, false, not, ◌&&◌, ◌||◌, Option, none, some, List, [], ◌∷◌,
  length, set, ltb, leb, ◌==◌, if◌then◌else◌,
}
use assimilation_official.NetAddr.{NetAddr}
use assimilation_official.Seqno.{Seqno, Cmp, compare}
use assimilation_official.FsQueue
use assimilation_official.FsQueue.{FsQueue}
use assimilation_official.FsQueue.Frames.{
  Frame, FrameSet, getseqno, append_frame, frameset_new, fstype_ack, fstype_connshut,
  fstype_connnak, is_some,
}
use assimilation_official.FsProtocol.Fsa.{
  State, fspr_none, Input, reqsend, acktimeout, Actions, nextstates, actions, in_shutdown,
}
use assimilation_official.FsProtocol.Types.{Key, key_equal, HistEntry, Elem, Parent, Conn}

-- `g_list_remove`, `g_queue_remove`: the first link that points to the connection goes.
unfoldable pub remove_key : Key → List Key → List Key
remove_key k [] = []
remove_key k (j ∷ rest) = if key_equal k j then rest else j ∷ remove_key k rest

-- A queue has no frameset: `g_queue_is_empty`, `_q->length == 0`.
abbrev pub is_empty : FsQueue → Bool
is_empty queue = length queue.q == 0

-- A guint32 counter one up.
abbrev next_session : ℕ → ℕ
next_session s = if s == 0 then 0 else (s + 1) % 2 ^ 32

-- A queue emptied by `_fsprotocol_fspe_reinit`.
abbrev emptied : FsQueue → FsQueue
emptied queue = if is_empty queue then queue else record (FsQueue.flush queue) { isready = false }

-- `_fsprotocol_fspe_reinit`
unfoldable pub reinit : Conn → Conn
unfolding FsQueue.flush remove_key
reinit c =
    let self : Elem = c.fspe in
    let parent : Parent = c.parent in
    let outq : FsQueue = record (emptied self.outq) {
      nextseqno = 1;
      sessionid = next_session self.outq.sessionid;
    } in
    let inq : FsQueue = record (emptied self.inq) { nextseqno = 1; sessionid = 0 } in
    record {
      parent = record parent {
        unacked = if is_empty self.outq then parent.unacked else remove_key self.key parent.unacked;
        ipend = if is_empty self.inq then parent.ipend else remove_key self.key parent.ipend;
      };
      fspe = record self {
        outq = outq;
        inq = inq;
        lastacksent = none;
        lastseqsent = none;
        shuttimer = false;
        finalizetimer = false;
        nextrexmit = 0;
        acktimeout = 0;
        state = fspr_none;
        shutdown_complete = false;
      };
    }

-- `io->sendaframeset(io, destaddr, fs)`
abbrev transmit_to : NetAddr → FrameSet → Conn → Conn
transmit_to destaddr fs c = record c {
  parent = record (c.parent) { sent = (destaddr, fs) ∷ c.parent.sent };
}

-- `io->sendaframeset(io, fspe->endpoint, fs)`
abbrev pub transmit : FrameSet → Conn → Conn
transmit fs c = transmit_to c.fspe.key.endpoint fs c

-- `fspe->lastacksent == NULL || compare(fspe->lastacksent, seq) < 0`
abbrev is_before : Option Seqno → Seqno → Bool
is_before none seq = true
is_before (some last) seq = elim (compare last seq) [ Cmp.lt ↦ true | _ ↦ false ]

-- `_fsprotocol_ackseqno`, once it has found the connection.
unfoldable pub ackseqno : NetAddr → Seqno → Conn → Conn
ackseqno destaddr seq c =
    let session : ℕ = c.fspe.inq.sessionid in
    if not (seq.sessionid == session) && not (session == 0)
    then c
    else (let ack : FrameSet = append_frame (frameset_new fstype_ack) (Frame.seqno seq) in
        let c1 : Conn = transmit_to destaddr ack c in
        record {
          parent = record (c1.parent) { ackssent = c1.parent.ackssent + 1 };
          fspe = record (c1.fspe) {
            lastacksent =
                if is_before c1.fspe.lastacksent seq then some seq else c1.fspe.lastacksent;
          };
        })

-- The sequence number of the frameset given to the automaton, if there is one.
abbrev pub seq_of : Option FrameSet → Option Seqno
seq_of none = none
seq_of (some fs) = getseqno fs

-- The actions of `_fsprotocol_fsa`, in its order. `send` is what `parent->send1` does to this
-- connection. An action that finds something out of whack adds `oops` to the action word.
unfoldable pub sndnak_action :
    (FrameSet → Conn → Conn) → Option FrameSet → Actions × Conn → Actions × Conn
sndnak_action send fs (act, c) =
    let nak : FrameSet = frameset_new fstype_connnak in
    if act.sndnak
    then elim (seq_of fs) [
      | none ↦ (record act { oops = true }, send nak c)
      | some seq ↦ (act, send (append_frame nak (Frame.seqno seq)) c)
    ]
    else (act, c)

unfoldable pub ackme_action : Option FrameSet → Actions × Conn → Actions × Conn
ackme_action fs (act, c) =
    if act.ackme
    then elim (seq_of fs) [
      | none ↦ (record act { oops = true }, c)
      | some seq ↦ (act, ackseqno c.fspe.key.endpoint seq c)
    ]
    else (act, c)

unfoldable pub sndshut_action : (FrameSet → Conn → Conn) → Actions × Conn → Actions × Conn
sndshut_action send (act, c) =
    if act.sndshut then (act, send (frameset_new fstype_connshut) c) else (act, c)

-- `_fsprotocol_flush_pending_connshut`
unfoldable pub flush_pending_connshut : Conn → Conn
flush_pending_connshut c = elim (FsQueue.qhead c.fspe.outq) [
  | none ↦ c
  | some fs ↦
      if fs.fstype == fstype_connshut
      then record c { fspe = record (c.fspe) { outq = FsQueue.flush1 c.fspe.outq } }
      else c
]

unfoldable pub noshut_action : Actions × Conn → Actions × Conn
noshut_action (act, c) = if act.noshut then (act, flush_pending_connshut c) else (act, c)

unfoldable pub timer_action : Actions × Conn → Actions × Conn
timer_action (act, c) =
    if act.timer
    then (if c.fspe.shuttimer
        then (record act { debug = true }, c)
        else (act, record c { fspe = record (c.fspe) { shuttimer = true } }))
    else (act, c)

unfoldable pub notime_action : Actions × Conn → Actions × Conn
notime_action (act, c) =
    if act.notime
    then (act, record c { fspe = record (c.fspe) { shuttimer = false } })
    else (act, c)

unfoldable pub close_action : Actions × Conn → Actions × Conn
close_action (act, c) =
    if act.close
    then (let c1 : Conn = reinit c in
        (
          act,
          record c1 { fspe = record (c1.fspe) { shutdown_complete = true; finalizetimer = true } },
        ))
    else (act, c)

-- `_fsprotocol_fsa_history`: its `index` is a local copy of `hist_next`.
unfoldable pub fsa_history : HistEntry → Elem → Elem
fsa_history entry self = record self { history = set self.history self.hist_next entry }

-- The actions of `_fsprotocol_fsa` that talk to the far end.
unfoldable pub fsa_talk :
    (FrameSet → Conn → Conn) → Option FrameSet → Actions × Conn → Actions × Conn
fsa_talk send fs word = sndshut_action send (ackme_action fs (sndnak_action send fs word))

-- The rest of `_fsprotocol_fsa`: its other actions, the history and the new state.
unfoldable pub fsa_finish : State → Input → Actions × Conn → Conn
fsa_finish curstate input word =
    let (act, c) = close_action (notime_action (timer_action (noshut_action word))) in
    let entry : HistEntry = record { fsa_state = curstate; fsa_input = input; fsa_action = act } in
    record c { fspe = record (fsa_history entry c.fspe) { state = nextstates curstate input } }

-- `_fsprotocol_fsa`
unfoldable pub fsa_with : (FrameSet → Conn → Conn) → Input → Option FrameSet → Conn → Conn
fsa_with send input fs c =
    fsa_finish c.fspe.state input (fsa_talk send fs (actions c.fspe.state input, c))
