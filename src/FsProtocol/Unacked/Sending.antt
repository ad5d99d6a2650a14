-- ===== src/FsProtocol/Unacked/Sending.antt =====
-- The list of unacknowledged connections under `_fsprotocol_xmitifwecan`, `_fsprotocol_send1`, the
-- automaton and an incoming ACK (clientlib/fsprotocol.c).
use assimilation_official.Common.{
  ℕ, ◌+◌, ◌≤◌, ◌≡◌, refl, inl, inr, true, false, not, ◌&&◌, Option, none, some, List, [], ◌∷◌,
  arith, ◌∙◌, Bool-cases, Option-cases, ltb,
}
use assimilation_official.Seqno.{Seqno}
use assimilation_official.FsQueue
use assimilation_official.FsQueue.{FsQueue}
use assimilation_official.FsQueue.Output.{enq-hasqspace1, hasqspace1_empty}
use assimilation_official.FsQueue.Acks.{length-ackthrough}
use assimilation_official.FsQueue.Frames.{FrameSet, getseqno, is_some}
use assimilation_official.FsProtocol.Fsa.{Input, reqsend, acktimeout, outalldone, in_shutdown}
use assimilation_official.FsProtocol.Types.{key_equal, Conn}
use assimilation_official.FsProtocol.Conn.{remove_key, is_empty, transmit}
use assimilation_official.FsProtocol.Transmit.{
  fsa_plain, xmit_new, send_new, is_old, at_window, xmit_timers, xmit_window, retransmit,
  xmitifwecan, send1, enqueue, start_timers, fsa,
}
use assimilation_official.FsProtocol.Receive.{receive_ack, acked_all, acked_some}
use assimilation_official.FsProtocol.Unacked.{
  IsTracked, Agree, Agree-IsTracked, fsa_with-IsTracked, count_key, count_key-remove_key,
}

send_new-Agree : (fs : FrameSet) (c : Conn) → Agree c (send_new fs c)
unfolding send_new
send_new-Agree fs c = ground arith

Agree-trans : (a b c : Conn) → Agree a b → Agree b c → Agree a c
Agree-trans a b c h k = (k.0 ∙ h.0, k.1 ∙ h.1, k.2 ∙ h.2)

xmit_new-Agree : (l : List FrameSet) (c : Conn) → Agree c (xmit_new l c)
unfolding xmit_new
xmit_new-Agree [] c = (refl, refl, refl)
xmit_new-Agree (fs ∷ l) c =
    let first = send_new-Agree fs c in
    elim (Bool-cases (not (is_old fs c) && is_some (getseqno fs) && at_window (send_new fs c))) [
      | inl stop ↦ rw stop first
      | inr go ↦ rw go (
          Agree-trans c (send_new fs c) (xmit_new l (send_new fs c)) first
            (xmit_new-Agree l (send_new fs c)))
    ]

fsa_plain-IsTracked :
    (i : Input) (fs : Option FrameSet) (c : Conn) → IsTracked c → IsTracked (fsa_plain i fs c)
fsa_plain-IsTracked i fs c t = fsa_with-IsTracked (λ f c'. c') (λ f c' e t'. t') fs i c t

retransmit-IsTracked :
    (now : ℕ) (fs : FrameSet) (c : Conn) → IsTracked c → IsTracked (retransmit now fs c)
unfolding retransmit
retransmit-IsTracked now fs c t =
    let c1 : Conn =
      transmit fs
        (record c { fspe = record (c.fspe) { nextrexmit = now + c.parent.rexmit_interval } }) in
    ground
      (arith, fsa_plain-IsTracked acktimeout none c1 (Agree-IsTracked c c1 (refl, refl, refl) t))

xmit_timers-IsTracked : (now : ℕ) (c : Conn) → IsTracked c → IsTracked (xmit_timers now c)
unfolding xmit_timers
xmit_timers-IsTracked now c t = elim (Option-cases (FsQueue.qhead c.fspe.outq)) [
  | inl e ↦ ground arith
  | inr (fs, e) ↦ ground (arith, retransmit-IsTracked now fs c t)
]

xmit_timers_empty :
    (now : ℕ) (c : Conn)
    → is_empty c.fspe.outq ≡ true
    → is_empty (xmit_timers now c).fspe.outq ≡ true
unfolding xmit_timers FsQueue.qhead
xmit_timers_empty now c h = ground arith

xmit_window-Agree : (c : Conn) → Agree c (xmit_window c)
unfolding xmit_window
xmit_window-Agree c = ground (arith, xmit_new-Agree c.fspe.outq.q c)

-- `_fsprotocol_xmitifwecan` keeps the list, with the retransmission and the clean-up after an ACK
-- timeout.
pub xmitifwecan-IsTracked : (now : ℕ) (c : Conn) → IsTracked c → IsTracked (xmitifwecan now c)
unfolding xmitifwecan
xmitifwecan-IsTracked now c t =
    let c1 : Conn = xmit_window c in
    let a = xmit_window-Agree c in
    let still : (is_empty c.fspe.outq && not (is_empty (xmit_timers now c1).fspe.outq)) ≡ false =
      ground (arith, xmit_timers_empty now c1) in
    rw still (xmit_timers-IsTracked now c1 (Agree-IsTracked c c1 a t))

-- An idle connection that accepts a frameset.
enq_empty :
    (static : ℕ) (outq : FsQueue) (fs : FrameSet)
    → is_empty outq ≡ true
    → fs.seqframe ≡ none
    → is_empty (FsQueue.enq static outq fs).1 ≡ false
enq_empty static outq fs e h = ground (arith, enq-hasqspace1 static outq fs, hasqspace1_empty outq)

enq_busy :
    (static : ℕ) (outq : FsQueue) (fs : FrameSet)
    → is_empty outq ≡ false
    → is_empty (FsQueue.enq static outq fs).1 ≡ false
enq_busy static outq fs e = ground (arith, enq-hasqspace1 static outq fs)

enqueue-IsTracked :
    (now static : ℕ) (fs : FrameSet) (c : Conn)
    → fs.seqframe ≡ none
    → IsTracked c
    → IsTracked (enqueue static fs (start_timers now c)).1
unfolding enqueue start_timers
enqueue-IsTracked now static fs c h t = elim (Bool-cases (is_empty c.fspe.outq)) [
  | inl e ↦ rw e (record {
    self_equal = t.self_equal;
    listed = ground (arith, enq_empty static c.fspe.outq fs e h, t.listed, t.self_equal);
  })
  | inr b ↦ rw b (record {
    self_equal = t.self_equal;
    listed = ground (arith, enq_busy static c.fspe.outq fs b, t.listed);
  })
]

-- `_fsprotocol_send1` keeps the list, for a frameset that has no sequence number yet.
pub send1-IsTracked :
    (now static : ℕ) (fs : FrameSet) (c : Conn)
    → fs.seqframe ≡ none
    → IsTracked c
    → IsTracked (send1 now static fs c).1
unfolding send1
send1-IsTracked now static fs c h t = elim (Bool-cases (in_shutdown c.fspe.state)) [
  | inl e ↦ rw e t
  | inr e ↦ rw e (
      xmitifwecan-IsTracked now (enqueue static fs (start_timers now (fsa_plain reqsend none c))).1
        (enqueue-IsTracked now static fs (fsa_plain reqsend none c) h
          (fsa_plain-IsTracked reqsend none c t)))
]

-- The automaton keeps the list on every input, with the CONNSHUT that it sends, the retransmissions
-- and the clean-up that this may lead to.
pub fsa-IsTracked :
    (now static : ℕ) (i : Input) (fs : Option FrameSet) (c : Conn)
    → IsTracked c
    → IsTracked (fsa now static i fs c)
unfolding fsa
fsa-IsTracked now static i fs c t =
    fsa_with-IsTracked (λ shut c'. (send1 now static shut c').1)
      (λ shut c' h t'. send1-IsTracked now static shut c' h t') fs i c t

acked_all-IsTracked :
    (now static count : ℕ) (fs : FrameSet) (c : Conn)
    → key_equal c.fspe.key c.fspe.key ≡ true
    → count_key c.fspe.key c.parent.unacked ≤ 1
    → is_empty c.fspe.outq ≡ true
    → IsTracked (acked_all now static count fs c)
unfolding acked_all
acked_all-IsTracked now static count fs c k h e =
    let c0 : Conn = record {
      parent = record (c.parent) { unacked = remove_key c.fspe.key c.parent.unacked };
      fspe = record (c.fspe) { nextrexmit = 0 };
    } in
    let t0 : IsTracked c0 = record {
      self_equal = k;
      listed = ground (arith, count_key-remove_key c.fspe.key c.parent.unacked);
    } in
    let c1 : Conn = xmitifwecan now c0 in
    let c2 : Conn = record c1 { fspe = record (c1.fspe) { acktimeout = 0 } } in
    let t2 = Agree-IsTracked c1 c2 (refl, refl, refl) (xmitifwecan-IsTracked now c0 t0) in
    elim (Bool-cases (ltb 0 count)) [
      | inl p ↦ rw p (fsa-IsTracked now static outalldone (some fs) c2 t2)
      | inr p ↦ rw p t2
    ]

-- An incoming ACK keeps the list: a connection whose last frameset is acknowledged leaves it.
pub receive_ack-IsTracked :
    (now static : ℕ) (seq : Seqno) (fs : FrameSet) (c : Conn)
    → IsTracked c
    → IsTracked (receive_ack now static seq fs c)
unfolding receive_ack
receive_ack-IsTracked now static seq fs c t =
    let outq : FsQueue = (FsQueue.ackthrough c.fspe.outq seq).1 in
    let c1 : Conn = record c { fspe = record (c.fspe) { outq = outq } } in
    elim (Option-cases (FsQueue.ackthrough c.fspe.outq seq).0) [
      | inl e ↦ rw (e, receive_ack) t
      | inr (count, e) ↦ elim (Bool-cases (is_empty outq)) [
        | inl all ↦
            rw (e, receive_ack, all)
              (acked_all-IsTracked now static count fs c1 t.self_equal (ground (arith, t.listed))
                all)
        | inr more ↦
            rw (e, receive_ack, more)
              (unfold acked_some in
                xmitifwecan-IsTracked now _ (record {
                  self_equal = t.self_equal;
                  listed = ground (arith, t.listed, length-ackthrough c.fspe.outq seq);
                }))
      ]
    ]
