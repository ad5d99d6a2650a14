-- ===== src/FsProtocol/Unacked.antt =====
-- `parent->unacked` of clientlib/fsprotocol.c: a connection is on the list of those that wait for
-- ACKs, once, exactly while its output queue holds something, as `_fsprotocol_auditfspe` demands.
pub mod Sending
use assimilation_official.Common.{
  ℕ, ◌+◌, ◌-◌, ◌≤◌, ◌<◌, ◌≡◌, refl, ◌⊎◌, inl, inr, Bool, true, false, not, ◌&&◌, Option, none, some,
  List, [], ◌∷◌, arith, sym, ◌∙◌, ap, ◌==◌, if◌then◌else◌, length, Bool-cases, ltb,
}
use assimilation_official.NetAddr.{NetAddr}
use assimilation_official.Seqno.{Seqno}
use assimilation_official.FsQueue
use assimilation_official.FsQueue.{FsQueue}
use assimilation_official.FsQueue.Frames.{
  FrameSet, getseqno, frameset_new, seqframe-frameset_new, fstype_connshut,
}
use assimilation_official.FsProtocol.Fsa.{
  State, Input, reqsend, acktimeout, Actions, actions, outalldone,
}
use assimilation_official.FsProtocol.Types.{Key, key_equal, Elem, Parent, Conn}
use assimilation_official.FsProtocol.Conn.{
  remove_key, is_empty, reinit, ackseqno, transmit, fsa_with, fsa_talk, fsa_finish, sndnak_action,
  ackme_action, sndshut_action, noshut_action, timer_action, notime_action, close_action,
  fsa_history,
}
use assimilation_official.FsProtocol.Transmit.{
  fsa_plain, xmit_new, xmit_timers, retransmit, xmitifwecan, send1, fsa,
}
use assimilation_official.FsProtocol.Receive.{receive_ack}

-- How many links of a list point to a connection.
abbrev pub count_key : Key → List Key → ℕ
count_key k [] = 0
count_key k (j ∷ rest) = if key_equal k j then count_key k rest + 1 else count_key k rest

pub count_key-remove_key :
    (k : Key) (ks : List Key) → count_key k (remove_key k ks) ≡ count_key k ks - 1
unfolding remove_key
count_key-remove_key k [] = refl
count_key-remove_key k (j ∷ ks) = ground (arith, count_key-remove_key k ks)

abbrev pub expected : FsQueue → ℕ
expected outq = if is_empty outq then 0 else 1

pub record IsTracked (c : Conn) : Type 0 where
  pub self_equal : key_equal c.fspe.key c.fspe.key ≡ true
  pub listed : count_key c.fspe.key c.parent.unacked ≡ expected c.fspe.outq

-- Two connections that differ in nothing that the list is about.
abbrev pub Agree : Conn → Conn → Type 0
Agree c c' =
    (c'.fspe.key ≡ c.fspe.key)
    × (c'.fspe.outq ≡ c.fspe.outq)
    × (c'.parent.unacked ≡ c.parent.unacked)

pub Agree-IsTracked : (c c' : Conn) → Agree c c' → IsTracked c → IsTracked c'
Agree-IsTracked c c' (k, o, u) t = record {
  self_equal = rw k t.self_equal;
  listed = rw (k, o, u) t.listed;
}

reinit-IsTracked : (c : Conn) → IsTracked c → IsTracked (reinit c)
unfolding reinit FsQueue.flush
reinit-IsTracked c t = ground (arith, count_key-remove_key c.fspe.key c.parent.unacked)

-- The actions of the automaton keep the list, one by one.
module _ (w : Actions × Conn) where
  close_action-IsTracked : IsTracked w.1 → IsTracked (close_action w).1
  unfolding close_action
  close_action-IsTracked t = ground (arith, reinit-IsTracked w.1 t)

  timer_action-IsTracked : IsTracked w.1 → IsTracked (timer_action w).1
  unfolding timer_action
  timer_action-IsTracked t = ground arith

  notime_action-IsTracked : IsTracked w.1 → IsTracked (notime_action w).1
  unfolding notime_action
  notime_action-IsTracked t = ground arith

  noshut_action_same : w.0.noshut ≡ false → noshut_action w ≡ w
  unfolding noshut_action
  noshut_action_same h = ground arith

fsa_finish-IsTracked :
    (s : State) (i : Input) (w : Actions × Conn)
    → w.0.noshut ≡ false
    → IsTracked w.1
    → IsTracked (fsa_finish s i w)
unfolding fsa_finish fsa_history
fsa_finish-IsTracked s i w h t = rw (noshut_action_same w h) (
    Agree-IsTracked (close_action (notime_action (timer_action w))).1 _ (refl, refl, refl)
      (close_action-IsTracked (notime_action (timer_action w))
        (notime_action-IsTracked (timer_action w) (timer_action-IsTracked w t))))

ackseqno-Agree : (dest : NetAddr) (seq : Seqno) (c : Conn) → Agree c (ackseqno dest seq c)
unfolding ackseqno
ackseqno-Agree dest seq c = ground arith

-- The matrix has neither a CONNNAK to send nor a CONNSHUT to flush.
no_nak : (s : State) (i : Input) → ((actions s i).sndnak ≡ false) × ((actions s i).noshut ≡ false)
unfolding actions
no_nak s i = ground arith

-- What sending must do for the automaton to keep the list.
abbrev pub Keeps : (FrameSet → Conn → Conn) → Type 0
Keeps send = (fs : FrameSet) (c : Conn) → fs.seqframe ≡ none → IsTracked c → IsTracked (send fs c)

module _ (send : FrameSet → Conn → Conn) (keeps : Keeps send) (fs : Option FrameSet) where
  sndnak_action-IsTracked : (w : Actions × Conn) → w.0.sndnak ≡ false → sndnak_action send fs w ≡ w
  unfolding sndnak_action
  sndnak_action-IsTracked w h = ground arith

  ackme_action-IsTracked :
      (w : Actions × Conn)
      → IsTracked w.1
      → IsTracked (ackme_action fs w).1 × ((ackme_action fs w).0.noshut ≡ w.0.noshut)
  unfolding ackme_action ackseqno
  ackme_action-IsTracked w t = ground arith

  sndshut_action-IsTracked :
      (w : Actions × Conn)
      → IsTracked w.1
      → IsTracked (sndshut_action send w).1 × ((sndshut_action send w).0.noshut ≡ w.0.noshut)
  unfolding sndshut_action
  sndshut_action-IsTracked w t =
      ground
        (arith, keeps (frameset_new fstype_connshut) w.1 (seqframe-frameset_new fstype_connshut) t)

  -- The automaton keeps the list if sending does.
  pub fsa_with-IsTracked : (i : Input) (c : Conn) → IsTracked c → IsTracked (fsa_with send i fs c)
  unfolding fsa_with fsa_talk
  fsa_with-IsTracked i c t =
      let w : Actions × Conn = (actions c.fspe.state i, c) in
      let (n, h) = no_nak c.fspe.state i in
      let a = ackme_action-IsTracked w t in
      let b = sndshut_action-IsTracked (ackme_action fs w) a.0 in
      rw (sndnak_action-IsTracked w n) (
        fsa_finish-IsTracked c.fspe.state i (sndshut_action send (ackme_action fs w))
          (b.1 ∙ a.1 ∙ h) b.0)
