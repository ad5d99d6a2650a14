-- ===== src/FsProtocol/Keys.antt =====
-- No operation of clientlib/fsprotocol.c on a connection changes whom the connection is to.
pub mod Receiving
use assimilation_official.Common.{
  ℕ, ◌+◌, ◌≡◌, refl, inl, inr, ◌∙◌, Bool, Option, none, some, List, [], ◌∷◌, ◌++◌, arith, ltb,
  if◌then◌else◌, Bool-cases, Option-cases, ◌==◌,
}
use assimilation_official.NetAddr.{NetAddr}
use assimilation_official.Seqno.{Seqno}
use assimilation_official.FsQueue
use assimilation_official.FsQueue.{FsQueue}
use assimilation_official.FsQueue.Frames.{
  FrameSet, getseqno, frameset_new, fstype_connshut, fstype_connnak, append_frame, Frame,
}
use assimilation_official.FsProtocol.Fsa.{
  State, Input, Actions, actions, reqsend, acktimeout, outalldone, in_shutdown, gotstart,
  gotconn_nak, rcvshutdown,
}
use assimilation_official.FsProtocol.Types.{Key, Conn}
use assimilation_official.FsProtocol.Conn.{
  is_empty, remove_key, transmit, reinit, ackseqno, flush_pending_connshut, fsa_with, fsa_talk,
  fsa_finish, sndnak_action, ackme_action, sndshut_action, noshut_action, timer_action,
  notime_action, close_action, fsa_history, seq_of,
}
use assimilation_official.FsProtocol.Transmit.{
  fsa_plain, xmit_new, send_new, xmit_timers, xmit_window, retransmit, xmitifwecan, send1, enqueue,
  start_timers, fsa,
}
use assimilation_official.FsProtocol.Receive.{
  note_identity, acked_all, acked_some, receive_ack, inserted, refused, mark_ready, receive_data,
  receive_conn, receive_checked, read_conn, sender_key_id, take_head, still_ready,
}

abbrev pub SameKey : Conn → Conn → Type 0
SameKey c c' = c'.fspe.key ≡ c.fspe.key

ackseqno-SameKey : (dest : NetAddr) (seq : Seqno) (c : Conn) → SameKey c (ackseqno dest seq c)
unfolding ackseqno
ackseqno-SameKey dest seq c = ground arith

module _ (w : Actions × Conn) where
  noshut_action-SameKey : SameKey w.1 (noshut_action w).1
  unfolding noshut_action flush_pending_connshut FsQueue.qhead
  noshut_action-SameKey = ground arith

  timer_action-SameKey : SameKey w.1 (timer_action w).1
  unfolding timer_action
  timer_action-SameKey = ground arith

  notime_action-SameKey : SameKey w.1 (notime_action w).1
  unfolding notime_action
  notime_action-SameKey = ground arith

  close_action-SameKey : SameKey w.1 (close_action w).1
  unfolding close_action reinit
  close_action-SameKey = ground arith

fsa_finish-SameKey : (s : State) (i : Input) (w : Actions × Conn) → SameKey w.1 (fsa_finish s i w)
unfolding fsa_finish fsa_history
fsa_finish-SameKey s i w =
    close_action-SameKey (notime_action (timer_action (noshut_action w)))
    ∙ notime_action-SameKey (timer_action (noshut_action w))
    ∙ timer_action-SameKey (noshut_action w)
    ∙ noshut_action-SameKey w

module _ (send : FrameSet → Conn → Conn)
    (keeps : (fs : FrameSet) (c : Conn) → SameKey c (send fs c)) (fs : Option FrameSet) where
  sndnak_action-SameKey : (w : Actions × Conn) → SameKey w.1 (sndnak_action send fs w).1
  unfolding sndnak_action
  sndnak_action-SameKey w = elim (Bool-cases w.0.sndnak) [
    | inl y ↦ elim (Option-cases (seq_of fs)) [
      | inl e ↦ rw (y, e) (keeps (frameset_new fstype_connnak) w.1)
      | inr (seq, e) ↦
          rw (y, e) (keeps (append_frame (frameset_new fstype_connnak) (Frame.seqno seq)) w.1)
    ]
    | inr n ↦ rw n refl
  ]

  ackme_action-SameKey : (w : Actions × Conn) → SameKey w.1 (ackme_action fs w).1
  unfolding ackme_action ackseqno
  ackme_action-SameKey w = ground arith

  sndshut_action-SameKey : (w : Actions × Conn) → SameKey w.1 (sndshut_action send w).1
  unfolding sndshut_action
  sndshut_action-SameKey w = ground (arith, keeps (frameset_new fstype_connshut) w.1)

  fsa_with-SameKey : (i : Input) (c : Conn) → SameKey c (fsa_with send i fs c)
  unfolding fsa_with fsa_talk
  fsa_with-SameKey i c =
      let w : Actions × Conn = (actions c.fspe.state i, c) in
      fsa_finish-SameKey c.fspe.state i (fsa_talk send fs w)
      ∙ sndshut_action-SameKey (ackme_action fs (sndnak_action send fs w))
      ∙ ackme_action-SameKey (sndnak_action send fs w)
      ∙ sndnak_action-SameKey w

fsa_plain-SameKey : (i : Input) (fs : Option FrameSet) (c : Conn) → SameKey c (fsa_plain i fs c)
fsa_plain-SameKey i fs c = fsa_with-SameKey (λ f c'. c') (λ f c'. refl) fs i c

send_new-SameKey : (fs : FrameSet) (c : Conn) → SameKey c (send_new fs c)
unfolding send_new
send_new-SameKey fs c = ground arith

xmit_new-SameKey : (l : List FrameSet) (c : Conn) → SameKey c (xmit_new l c)
unfolding xmit_new
xmit_new-SameKey [] c = refl
xmit_new-SameKey (fs ∷ l) c =
    ground (arith, send_new-SameKey fs c, xmit_new-SameKey l (send_new fs c))

retransmit-SameKey : (now : ℕ) (fs : FrameSet) (c : Conn) → SameKey c (retransmit now fs c)
unfolding retransmit
retransmit-SameKey now fs c =
    let c1 : Conn =
      transmit fs
        (record c { fspe = record (c.fspe) { nextrexmit = now + c.parent.rexmit_interval } }) in
    ground (arith, fsa_plain-SameKey acktimeout none c1)

xmit_timers-SameKey : (now : ℕ) (c : Conn) → SameKey c (xmit_timers now c)
unfolding xmit_timers
xmit_timers-SameKey now c = elim (Option-cases (FsQueue.qhead c.fspe.outq)) [
  | inl e ↦ ground arith
  | inr (fs, e) ↦ ground (arith, retransmit-SameKey now fs c)
]

xmit_window-SameKey : (c : Conn) → SameKey c (xmit_window c)
unfolding xmit_window
xmit_window-SameKey c = ground (arith, xmit_new-SameKey c.fspe.outq.q c)

pub xmitifwecan-SameKey : (now : ℕ) (c : Conn) → SameKey c (xmitifwecan now c)
unfolding xmitifwecan
xmitifwecan-SameKey now c =
    ground (arith, xmit_timers-SameKey now (xmit_window c), xmit_window-SameKey c)

enqueue-SameKey :
    (now static : ℕ) (fs : FrameSet) (c : Conn)
    → SameKey c (enqueue static fs (start_timers now c)).1
unfolding enqueue start_timers
enqueue-SameKey now static fs c = ground arith

pub send1-SameKey :
    (now static : ℕ) (fs : FrameSet) (c : Conn) → SameKey c (send1 now static fs c).1
unfolding send1
send1-SameKey now static fs c = elim (Bool-cases (in_shutdown c.fspe.state)) [
  | inl e ↦ rw e refl
  | inr e ↦ rw e (
      xmitifwecan-SameKey now (enqueue static fs (start_timers now (fsa_plain reqsend none c))).1
      ∙ enqueue-SameKey now static fs (fsa_plain reqsend none c)
      ∙ fsa_plain-SameKey reqsend none c)
]

pub fsa-SameKey :
    (now static : ℕ) (i : Input) (fs : Option FrameSet) (c : Conn)
    → SameKey c (fsa now static i fs c)
unfolding fsa
fsa-SameKey now static i fs c =
    fsa_with-SameKey (λ shut c'. (send1 now static shut c').1)
      (λ shut c'. send1-SameKey now static shut c') fs i c
