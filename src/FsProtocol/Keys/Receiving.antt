-- ===== src/FsProtocol/Keys/Receiving.antt =====
-- What comes in for a connection of clientlib/fsprotocol.c, or is read from it, leaves it the connection
-- to the same endpoint.
use assimilation_official.Common.{
  ℕ, ◌+◌, ◌≡◌, refl, inl, inr, ◌∙◌, Bool, Option, none, some, List, [], ◌∷◌, ◌++◌, arith, ltb,
  if◌then◌else◌, Bool-cases, Option-cases, ◌==◌,
}
use assimilation_official.Seqno.{Seqno}
use assimilation_official.FsQueue
use assimilation_official.FsQueue.{FsQueue}
use assimilation_official.FsQueue.Frames.{FrameSet, getseqno, fstype_connshut}
use assimilation_official.FsProtocol.Fsa.{outalldone, gotstart, gotconn_nak, rcvshutdown}
use assimilation_official.FsProtocol.Types.{Key, Conn}
use assimilation_official.FsProtocol.Conn.{is_empty, remove_key, ackseqno}
use assimilation_official.FsProtocol.Transmit.{xmitifwecan, fsa}
use assimilation_official.FsProtocol.Receive.{
  note_identity, acked_all, acked_some, receive_ack, inserted, refused, mark_ready, receive_data,
  receive_conn, receive_checked, read_conn, sender_key_id, take_head, still_ready,
}
use assimilation_official.FsProtocol.Keys.{SameKey, fsa-SameKey, xmitifwecan-SameKey}

acked_all-SameKey :
    (now static count : ℕ) (fs : FrameSet) (c : Conn) → SameKey c (acked_all now static count fs c)
unfolding acked_all
acked_all-SameKey now static count fs c =
    let c0 : Conn = record {
      parent = record (c.parent) { unacked = remove_key c.fspe.key c.parent.unacked };
      fspe = record (c.fspe) { nextrexmit = 0 };
    } in
    let c1 : Conn = xmitifwecan now c0 in
    let c2 : Conn = record c1 { fspe = record (c1.fspe) { acktimeout = 0 } } in
    elim (Bool-cases (ltb 0 count)) [
      | inl p ↦ rw p (fsa-SameKey now static outalldone (some fs) c2 ∙ xmitifwecan-SameKey now c0)
      | inr p ↦ rw p (xmitifwecan-SameKey now c0)
    ]

receive_ack-SameKey :
    (now static : ℕ) (seq : Seqno) (fs : FrameSet) (c : Conn)
    → SameKey c (receive_ack now static seq fs c)
unfolding receive_ack acked_some
receive_ack-SameKey now static seq fs c =
    let outq : FsQueue = (FsQueue.ackthrough c.fspe.outq seq).1 in
    let c1 : Conn = record c { fspe = record (c.fspe) { outq = outq } } in
    elim (Option-cases (FsQueue.ackthrough c.fspe.outq seq).0) [
      | inl e ↦ rw (e, receive_ack) refl
      | inr (count, e) ↦ elim (Bool-cases (is_empty outq)) [
        | inl all ↦ rw (e, receive_ack, all) (acked_all-SameKey now static count fs c1)
        | inr more ↦ rw (e, receive_ack, more) (xmitifwecan-SameKey now _)
      ]
    ]

inserted-SameKey :
    (now static : ℕ) (seq : Option Seqno) (fs : FrameSet) (c : Conn)
    → SameKey c (inserted now static seq fs c)
unfolding inserted
inserted-SameKey now static none fs c = refl
inserted-SameKey now static (some seq) fs c =
    let c' : Conn = record c {
      fspe = record (c.fspe) { acktimeout = now + c.parent.acktimeout };
    } in
    ground (
      arith,
      fsa-SameKey now static gotstart (some fs) c,
      fsa-SameKey now static gotstart (some fs) c',
    )

refused-SameKey : (seq : Option Seqno) (c : Conn) → SameKey c (refused seq c)
unfolding refused ackseqno
refused-SameKey none c = refl
refused-SameKey (some seq) c = ground arith

mark_ready-SameKey : (seq : Option Seqno) (c : Conn) → SameKey c (mark_ready seq c)
unfolding mark_ready
mark_ready-SameKey seq c = ground arith

receive_data-SameKey :
    (now static : ℕ) (fs : FrameSet) (c : Conn) {c' : Conn}
    → receive_data now static fs c ≡ some c'
    → SameKey c c'
unfolding receive_data
receive_data-SameKey now static fs c e = elim (Option-cases (FsQueue.inqsorted c.fspe.inq fs)) [
  | inl n ↦ absurd (ground arith)
  | inr ((done, inq), h) ↦
      let seq : Option Seqno = getseqno fs in
      let c1 : Conn = record c { fspe = record (c.fspe) { inq = inq } } in
      let c2 : Conn = if done then inserted now static seq fs c1 else refused seq c1 in
      ground (
        arith,
        h,
        e,
        inserted-SameKey now static seq fs c1,
        refused-SameKey seq c1,
        mark_ready-SameKey seq c2,
        xmitifwecan-SameKey now (mark_ready seq c2),
      )
]

receive_conn-SameKey :
    (now static : ℕ) (fs : FrameSet) (c : Conn) {c' : Conn}
    → receive_conn now static fs c ≡ some c'
    → SameKey c c'
unfolding receive_conn
receive_conn-SameKey now static fs c {c'} e =
    let c1 : Conn = record c {
      parent = record (c.parent) { acksrecvd = c.parent.acksrecvd + 1 };
    } in
    elim (Option-cases (getseqno fs)) [
      | inl n ↦ ground (
        arith,
        fsa-SameKey now static gotconn_nak (some fs) c,
        receive_data-SameKey now static fs c {c' = c'},
      )
      | inr (seq, h) ↦ ground (
        arith,
        fsa-SameKey now static gotconn_nak (some fs) c,
        receive_data-SameKey now static fs c {c' = c'},
        receive_ack-SameKey now static seq fs c1,
      )
    ]

-- A frameset that comes in for a connection leaves it the connection to the same endpoint.
pub receive_checked-SameKey :
    (whois : ℕ → Option ℕ) (now static : ℕ) (fs : FrameSet) (c : Conn) {c' : Conn}
    → receive_checked whois now static fs c ≡ some c'
    → SameKey c c'
unfolding receive_checked note_identity
receive_checked-SameKey whois now static fs c {c'} e =
    let keyid : Option ℕ = sender_key_id fs in
    let c1 : Conn = record c { fspe = note_identity whois keyid c.fspe } in
    ground (arith, receive_conn-SameKey now static fs c1 {c' = c'})

pub read_conn-SameKey :
    (now static : ℕ) (fs : FrameSet) (c : Conn) → SameKey c (read_conn now static fs c)
unfolding read_conn
read_conn-SameKey now static fs c =
    let inq : FsQueue = take_head fs c.fspe.inq in
    let more : Bool = still_ready inq in
    let others : List Key = remove_key c.fspe.key c.parent.ipend in
    let c1 : Conn = record {
      parent = record (c.parent) { ipend = if more then others ++ (c.fspe.key ∷ []) else others };
      fspe = record (c.fspe) { inq = record inq { isready = more } };
    } in
    elim (Bool-cases (fs.fstype == fstype_connshut)) [
      | inl e ↦ rw e (
          xmitifwecan-SameKey now (fsa now static rcvshutdown (some fs) c1)
          ∙ fsa-SameKey now static rcvshutdown (some fs) c1)
      | inr e ↦ rw e (xmitifwecan-SameKey now c1)
    ]
