-- ===== src/FsProtocol/Sends.antt =====
-- What `_fsprotocol_xmitifwecan` of clientlib/fsprotocol.c sends for the first time: the framesets of
-- the output queue after the last one sent, all of them, in order.
use assimilation_official.Common.{
  ℕ, ◌+◌, ◌-◌, ◌≤◌, ◌<◌, ◌≡◌, refl, ◌⊎◌, inl, inr, sym, true, false, none, some, List, [], ◌∷◌,
  length, drop, drop_of_zero, drop-nil, drop-cons, arith, ltb, if◌then◌else◌, Bool-cases,
}
use native.Mathlib.Decide.{dec_le}
use assimilation_official.NetAddr.{NetAddr}
use assimilation_official.Seqno.{Seqno}
use assimilation_official.Seqno.Order.{compare_cases}
use assimilation_official.FsQueue.Frames.{FrameSet, getseqno}
use assimilation_official.FsQueue.Output.{Consecutive, IsOutput}
use assimilation_official.FsProtocol.Types.{Conn}
use assimilation_official.FsProtocol.Transmit.{send_new, xmit_new, xmit_window, is_old, at_window}

-- `m` is the first number of the session that was not sent yet, 0 where nothing was.
abbrev pub Unsent : ℕ → ℕ → Conn → Type 0
Unsent s m c =
    ((c.fspe.lastseqsent ≡ none) × (m ≡ 0))
    ⊎ ((last : Seqno) × (c.fspe.lastseqsent ≡ some last)
        × (last.sessionid ≡ s)
        × (m ≡ last.reqid + 1))

-- What was sent, newest first, after the framesets went out one by one.
abbrev pub log : NetAddr → List FrameSet → List (NetAddr × FrameSet) → List (NetAddr × FrameSet)
log dest [] sent = sent
log dest (fs ∷ rest) sent = log dest rest ((dest, fs) ∷ sent)

-- One round of the loop, for a frameset under number `n`.
module _ (s qid n m : ℕ) (fs : FrameSet) (c : Conn)
    (numbered : getseqno fs ≡ some (record { sessionid = s; reqid = n; qid = qid }))
    (unsent : Unsent s m c) where
  is_old_number : n < m → is_old fs c ≡ true
  is_old_number h = elim unsent [
    | inl (e, z) ↦ absurd (omega arith)
    | inr (last, e, es, el) ↦
        let this : Seqno = record { sessionid = s; reqid = n; qid = qid } in
        ground (arith, compare_cases this last (sym es))
  ]

  is_new_number : m ≤ n → is_old fs c ≡ false
  is_new_number h = elim unsent [
    | inl (e, z) ↦ ground arith
    | inr (last, e, es, el) ↦
        let this : Seqno = record { sessionid = s; reqid = n; qid = qid } in
        ground (arith, compare_cases this last (sym es))
  ]

  send_new_old : n < m → send_new fs c ≡ c
  unfolding send_new
  send_new_old h = rw (is_old_number h) refl

  abbrev sent_one : Conn
  sent_one = record {
    parent = record (c.parent) { sent = (c.fspe.key.endpoint, fs) ∷ c.parent.sent };
    fspe = record (c.fspe) { lastseqsent = some (record { sessionid = s; reqid = n; qid = qid }) };
  }

  send_new_fresh : m ≤ n → send_new fs c ≡ sent_one
  unfolding send_new
  send_new_fresh h = ground (arith, is_new_number h, numbered)

-- The loop over the queue, short of the window.
sent-xmit_new :
    (s qid n m : ℕ) (q : List FrameSet) (c : Conn)
    → Consecutive s qid n q
    → Unsent s m c
    → at_window c ≡ false
    → (xmit_new q c).parent.sent ≡ log c.fspe.key.endpoint (drop (m - n) q) c.parent.sent
unfolding xmit_new
sent-xmit_new s qid n m [] c v u w = rw (drop-nil FrameSet (m - n)) refl
sent-xmit_new s qid n m (fs ∷ q) c v u w = elim (dec_le m n) [
  | yes fresh ↦
      let c1 : Conn = sent_one s qid n m fs c v.0 u in
      let rest =
        sent-xmit_new s qid (n + 1) (n + 1) q c1 v.1
          (inr (record { sessionid = s; reqid = n; qid = qid }, refl, refl, refl)) w in
      ground (
        arith,
        send_new_fresh s qid n m fs c v.0 u fresh,
        rest,
        drop_of_zero (n + 1 - (n + 1)) q,
        drop_of_zero (m - n) (fs ∷ q),
        w,
      )
  | no old ↦ ground (
    arith,
    send_new_old s qid n m fs c v.0 u (omega arith),
    is_old_number s qid n m fs c v.0 u (omega arith),
    sent-xmit_new s qid (n + 1) m q c v.1 u w,
    drop-cons (m - n) (m - (n + 1)) fs q,
  )
]

-- With fewer framesets in the output queue than the window allows, the sending part of
-- `_fsprotocol_xmitifwecan` sends exactly those from the first unsent number on, each once and in the
-- order of the queue, on an output queue numbered without gaps. With as many or more it sends nothing,
-- even where the queue holds framesets that were never sent: the whole queue counts, and not, as the
-- comment above the function has it, the framesets that wait for an ACK.
pub sent-xmit_window :
    (m : ℕ) (c : Conn)
    → IsOutput c.fspe.outq
    → Unsent c.fspe.outq.sessionid m c
    → let outq = c.fspe.outq in
      (xmit_window c).parent.sent ≡ (
        if ltb (length outq.q) c.parent.window_size
        then log c.fspe.key.endpoint
            (drop (m - (outq.nextseqno - length outq.q)) outq.q)
            c.parent.sent
        else c.parent.sent)
unfolding xmit_window
sent-xmit_window m c v u = elim (Bool-cases (ltb (length c.fspe.outq.q) c.parent.window_size)) [
  | inl room ↦ rw room (
      sent-xmit_new c.fspe.outq.sessionid c.fspe.outq.qid _ m c.fspe.outq.q c v.numbered u
        (ground arith))
  | inr full ↦ rw full refl
]
