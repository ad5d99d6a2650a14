-- ===== src/Tests/Protocol.antt =====
-- clientlib/fsprotocol.c on small connections.
use assimilation_official.Common.{
  ℕ, ◌+◌, ◌≡◌, refl, ◌⊎◌, inl, ◌≢◌, ◌↔◌, true, false, not, ◌&&◌, none, List, [], ◌∷◌, arith,
}
use assimilation_official.Seqno.{Seqno, compare}
use assimilation_official.NetAddr.{NetAddr, ipv6, same, equal}
use assimilation_official.FsQueue
use assimilation_official.FsQueue.{
  FsQueue, inqsorted, check_session, inq_sequenced, insert_sorted, flush,
}
use assimilation_official.FsQueue.Frames.{Frame, FrameSet, getseqno}
use assimilation_official.FsQueue.Input.{IsInput}
use assimilation_official.FsProtocol.Fsa.{
  fspr_none, fspr_init, fspr_up, reqshutdown, gotconn_nak, actions, nextstates, in_shutdown,
}
use assimilation_official.FsProtocol.Fsa.Laws.{sndshut_lem, close_lem}
use assimilation_official.FsProtocol.Types.{Key, key_equal, Parent, Conn}
use assimilation_official.FsProtocol.Transmit.{send1}
use assimilation_official.FsProtocol.Receive.{take_head, receive_ack}
use assimilation_official.FsProtocol.Table.{new_elem}
use assimilation_official.FsProtocol.Delivery.{
  Session, start, arrive, deliver, InOrder, Session-InOrder,
}
use assimilation_official.FsProtocol.Unacked.{IsTracked}
use assimilation_official.FsProtocol.Unacked.Sending.{send1-IsTracked, receive_ack-IsTracked}

abbrev pub seq : ℕ → Seqno
seq reqid = record { sessionid = 7; reqid = reqid; qid = 0 }

abbrev pub numbered : ℕ → FrameSet
numbered reqid = record { fstype = 20; framelist = Frame.seqno (seq reqid) ∷ []; seqframe = none }

abbrev pub plain : FrameSet
plain = record { fstype = 20; framelist = Frame.other 50 ∷ []; seqframe = none }

abbrev pub inq : ℕ → List FrameSet → FsQueue
inq next q = record {
  nextseqno = next;
  sessionid = 7;
  maxqlen = 32;
  q = q;
  qid = 0;
  isready = false;
}

pub inq-IsInput : IsInput (inq 1 [])
inq-IsInput = record { ordered = tt; opened = inl refl }

-- Number 2 comes first, then number 1; both are read.
reordered :
    Session (inq 1 []) (numbered 1 ∷ numbered 2 ∷ []) (numbered 2 ∷ numbered 1 ∷ []) (inq 3 [])
unfolding inqsorted check_session inq_sequenced insert_sorted getseqno take_head FsQueue.qhead
    FsQueue.deq compare
reordered =
    deliver
      (deliver
        (arrive {q = inq 1 (numbered 2 ∷ [])} {after = inq 1 (numbered 1 ∷ numbered 2 ∷ [])}
          (arrive {q = inq 1 []} {after = inq 1 (numbered 2 ∷ [])} start (numbered 2) (seq 2) refl
            (omega arith) (omega arith) refl)
          (numbered 1) (seq 1) refl (omega arith) (omega arith) refl)
        (numbered 1) refl refl (omega arith) refl)
      (numbered 2) refl refl (omega arith) refl

Session-InOrder_example :
    InOrder (inq 1 []) (numbered 1 ∷ numbered 2 ∷ []) (numbered 2 ∷ numbered 1 ∷ []) (inq 3 [])
Session-InOrder_example = Session-InOrder (inq 1 []) inq-IsInput refl (omega arith) reordered

sndshut_lem_example :
    ((actions fspr_up reqshutdown).sndshut
      ≡ (not (in_shutdown fspr_up) && in_shutdown (nextstates fspr_up reqshutdown)))
    × ((actions fspr_up reqshutdown).timer ≡ (actions fspr_up reqshutdown).sndshut)
sndshut_lem_example = sndshut_lem fspr_up reqshutdown

close_lem_example : ((actions fspr_init gotconn_nak).close ≡ true) ↔ (
    ((nextstates fspr_init gotconn_nak ≡ fspr_none)
      × ((in_shutdown fspr_init ≡ false) ⊎ (gotconn_nak ≢ gotconn_nak)))
    ⊎ ((fspr_init ≡ fspr_init) × (gotconn_nak ≡ gotconn_nak)))
close_lem_example = close_lem fspr_init gotconn_nak (ground arith)

abbrev pub peer : NetAddr
peer = record {
  addrtype = ipv6;
  addrport = 1984;
  addrbody = 0 ∷ 0 ∷ 0 ∷ 0 ∷ 0 ∷ 0 ∷ 0 ∷ 0 ∷ 0 ∷ 0 ∷ 0 ∷ 0 ∷ 0 ∷ 0 ∷ 0 ∷ 9 ∷ [];
}

abbrev pub key : Key
key = record { qid = 0; endpoint = peer }

abbrev pub idle_parent : Parent
idle_parent = record {
  unacked = [];
  ipend = [];
  window_size = 2;
  rexmit_interval = 2000000;
  acktimeout = 120000000;
  sent = [];
  acksrecvd = 0;
  ackssent = 0;
  reliablesends = 0;
  reliablereads = 0;
}

-- A connection that has sent nothing yet.
abbrev pub idle : Conn
idle = record { parent = idle_parent; fspe = new_elem key }

idle-IsTracked : IsTracked idle
unfolding new_elem FsQueue.new key_equal equal same
idle-IsTracked = record { self_equal = refl; listed = refl }

abbrev quiet : FrameSet → Conn → Conn
quiet fs c = c

abbrev count_send : FrameSet → Conn → Conn
count_send fs c = record c {
  parent = record (c.parent) { reliablesends = c.parent.reliablesends + 1 };
}

-- One frameset is under way.
abbrev busy : Conn
busy = (send1 5 9 plain idle).1

busy-IsTracked : IsTracked busy
busy-IsTracked = send1-IsTracked 5 9 plain idle refl idle-IsTracked

receive_ack-IsTracked_example :
    IsTracked (receive_ack 7 9 (record { sessionid = 9; reqid = 1; qid = 0 }) plain busy)
receive_ack-IsTracked_example =
    receive_ack-IsTracked 7 9 (record { sessionid = 9; reqid = 1; qid = 0 }) plain busy
      busy-IsTracked
