-- ===== src/FsProtocol/Receive.antt =====
-- The input side of clientlib/fsprotocol.c on one connection: what `_fsprotocol_receive` does with a
-- frameset once the connection is found, and what `_fsprotocol_read` does with a ready one.
use assimilation_official.Common.{
  ℕ, ◌+◌, ◌%◌, ◌^◌, Bool, true, false, not, ◌&&◌, Option, none, some, List, [], ◌∷◌, ◌++◌, ltb, leb,
  ◌==◌, if◌then◌else◌, get_elem?,
}
use assimilation_official.Seqno.{Seqno, Cmp, compare}
use assimilation_official.FsQueue
use assimilation_official.FsQueue.{FsQueue}
use assimilation_official.FsQueue.Frames.{
  Frame, FrameSet, getseqno, min_seqframeset, fstype_ack, fstype_connshut, fstype_connnak,
}
use assimilation_official.FsProtocol.Fsa.{gotstart, gotconn_nak, rcvshutdown, outalldone}
use assimilation_official.FsProtocol.Types.{Key, Elem, Conn}
use assimilation_official.FsProtocol.Conn.{ackseqno, remove_key, is_empty}
use assimilation_official.FsProtocol.Transmit.{xmitifwecan, fsa}

-- The key id of the second frame, where that is a CryptFrame.
unfoldable pub sender_key_id : FrameSet → Option ℕ
sender_key_id fs = elim (get_elem? fs.framelist 1) [
  | none ↦ none
  | some f ↦ elim f [ Frame.crypt k ↦ k | _ ↦ none ]
]

-- The identity of a key: `whois` is `cryptframe_whois_key_id`.
abbrev sender_of : (ℕ → Option ℕ) → Option ℕ → Option ℕ
sender_of whois none = none
sender_of whois (some keyid) = whois keyid

-- A connection that has seen a key is encrypted from then on, and keeps the first identity.
unfoldable pub note_identity : (ℕ → Option ℕ) → Option ℕ → Elem → Elem
note_identity whois none fspe = fspe
note_identity whois (some keyid) fspe = record fspe {
  is_encrypted = true;
  peer_identity = elim fspe.peer_identity [ none ↦ whois keyid | some peer ↦ some peer ];
}

-- Whether a frameset of a sequenced type is let through, by its key and its sender's identity.
unfoldable pub allowed : (ℕ → Option ℕ) → Option ℕ → Elem → Bool
allowed whois keyid fspe = elim fspe.peer_identity [
  | some peer ↦ elim (sender_of whois keyid) [ none ↦ false | some sender ↦ sender == peer ]
  | none ↦ elim keyid [ none ↦ not fspe.is_encrypted | some k ↦ true ]
]

-- The last frameset of the output queue was acknowledged: nothing is outstanding any more.
unfoldable pub acked_all : ℕ → ℕ → ℕ → FrameSet → Conn → Conn
acked_all now static count fs c =
    let c1 : Conn = xmitifwecan now (record {
      parent = record (c.parent) { unacked = remove_key c.fspe.key c.parent.unacked };
      fspe = record (c.fspe) { nextrexmit = 0 };
    }) in
    let c2 : Conn = record c1 { fspe = record (c1.fspe) { acktimeout = 0 } } in
    if ltb 0 count then fsa now static outalldone (some fs) c2 else c2

-- More is outstanding.
unfoldable pub acked_some : ℕ → Conn → Conn
acked_some now c =
    xmitifwecan now (record c { fspe = record (c.fspe) { acktimeout = now + c.parent.acktimeout } })

-- `case FRAMESETTYPE_ACK` of `_fsprotocol_receive`.
unfoldable pub receive_ack : ℕ → ℕ → Seqno → FrameSet → Conn → Conn
receive_ack now static seq fs c =
    let (ackcount, outq) = FsQueue.ackthrough c.fspe.outq seq in
    let c1 : Conn = record c { fspe = record (c.fspe) { outq = outq } } in
    elim ackcount [
      | none ↦ c
      | some count ↦ if is_empty outq then acked_all now static count fs c1 else acked_some now c1
    ]

-- What follows a frameset that went into the input queue.
unfoldable pub inserted : ℕ → ℕ → Option Seqno → FrameSet → Conn → Conn
inserted now static none fs c = c
inserted now static (some seq) fs c =
    let c1 : Conn =
      if c.fspe.acktimeout == 0
      then record c { fspe = record (c.fspe) { acktimeout = now + c.parent.acktimeout } }
      else c in
    if seq.reqid == 1 then fsa now static gotstart (some fs) c1 else c1

-- What follows one that did not: if it was acknowledged before, the last ACK is sent again.
unfoldable pub refused : Option Seqno → Conn → Conn
refused none c = c
refused (some seq) c = elim c.fspe.lastacksent [
  | none ↦ c
  | some last ↦
      if seq.sessionid == last.sessionid && elim (compare seq last) [ Cmp.gt ↦ false | _ ↦ true ]
      then ackseqno c.fspe.key.endpoint last c
      else c
]

-- `seq == NULL || seq->_reqid == inq->_nextseqno`
abbrev pub is_next : Option Seqno → FsQueue → Bool
is_next none inq = true
is_next (some seq) inq = seq.reqid == inq.nextseqno

-- A connection that was not ready joins the ready ones, at the end, if this frameset is due.
unfoldable pub mark_ready : Option Seqno → Conn → Conn
mark_ready seq c =
    if not c.fspe.inq.isready && is_next seq c.fspe.inq
    then record {
      parent = record (c.parent) { ipend = c.parent.ipend ++ (c.fspe.key ∷ []) };
      fspe = record (c.fspe) { inq = record (c.fspe.inq) { isready = true } };
    }
    else c

-- The part of `_fsprotocol_receive` that queues a frameset; `none` is a fault of `inqsorted`.
unfoldable pub receive_data : ℕ → ℕ → FrameSet → Conn → Option Conn
receive_data now static fs c = elim (FsQueue.inqsorted c.fspe.inq fs) [
  | none ↦ none
  | some (done, inq) ↦
      let seq : Option Seqno = getseqno fs in
      let c1 : Conn = record c { fspe = record (c.fspe) { inq = inq } } in
      let c2 : Conn = if done then inserted now static seq fs c1 else refused seq c1 in
      some (xmitifwecan now (mark_ready seq c2))
]

-- The switch of `_fsprotocol_receive` on the type of the frameset.
unfoldable pub receive_conn : ℕ → ℕ → FrameSet → Conn → Option Conn
receive_conn now static fs c =
    if fs.fstype == fstype_ack
    then (let c1 : Conn = record c {
      parent = record (c.parent) { acksrecvd = c.parent.acksrecvd + 1 };
    } in
        elim (getseqno fs) [ none ↦ some c1 | some seq ↦ some (receive_ack now static seq fs c1) ])
    else if fs.fstype == fstype_connnak
    then some (fsa now static gotconn_nak (some fs) c)
    else receive_data now static fs c

-- The identity checks in front of the switch: what fails them is dropped.
unfoldable pub receive_checked : (ℕ → Option ℕ) → ℕ → ℕ → FrameSet → Conn → Option Conn
receive_checked whois now static fs c =
    let keyid : Option ℕ = sender_key_id fs in
    let c1 : Conn = record c { fspe = note_identity whois keyid c.fspe } in
    if leb min_seqframeset fs.fstype && not (allowed whois keyid c1.fspe)
    then some c1
    else receive_conn now static fs c1

-- Whether there will still be something to read at the head of the queue.
unfoldable pub still_ready : FsQueue → Bool
still_ready inq = elim (FsQueue.qhead inq) [ none ↦ false | some fs ↦ is_next (getseqno fs) inq ]

-- The dequeuing part of `_fsprotocol_read`: the queue after a ready frameset left it.
unfoldable pub take_head : FrameSet → FsQueue → FsQueue
take_head fs inq =
    let after : FsQueue = (FsQueue.deq inq).1 in
    elim (getseqno fs) [
      | none ↦ after
      | some seq ↦ record after { nextseqno = (after.nextseqno + 1) % 2 ^ 64 }
    ]

-- `_fsprotocol_read` once it has found that the head `fs` of the input queue is ready.
unfoldable pub read_conn : ℕ → ℕ → FrameSet → Conn → Conn
read_conn now static fs c =
    let inq : FsQueue = take_head fs c.fspe.inq in
    let more : Bool = still_ready inq in
    let others : List Key = remove_key c.fspe.key c.parent.ipend in
    let c1 : Conn = record {
      parent = record (c.parent) { ipend = if more then others ++ (c.fspe.key ∷ []) else others };
      fspe = record (c.fspe) { inq = record inq { isready = more } };
    } in
    let c2 : Conn =
      if fs.fstype == fstype_connshut then fsa now static rcvshutdown (some fs) c1 else c1 in
    let c3 : Conn = xmitifwecan now c2 in
    record c3 { parent = record (c3.parent) { reliablereads = c3.parent.reliablereads + 1 } }
