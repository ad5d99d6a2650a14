-- ===== src/Tests/Connections.antt =====
-- The table of connections and the sending side of clientlib/fsprotocol.c on small examples.
use assimilation_official.Common.{
  ℕ, ◌≡◌, refl, inr, true, false, Option, none, some, [], ◌∷◌, All, arith,
}
use assimilation_official.NetAddr.{equal, same, to_ipv6}
use assimilation_official.NetAddr.Canonical.{IsWellFormed}
use assimilation_official.FsQueue
use assimilation_official.FsQueue.{FsQueue, inqsorted, enq}
use assimilation_official.FsQueue.Frames.{getseqno}
use assimilation_official.FsQueue.Output.{IsOutput}
use assimilation_official.FsProtocol.Types.{FsProtocol, Conn, Elem, key_equal}
use assimilation_official.FsProtocol.Transmit.{xmit_window}
use assimilation_official.FsProtocol.Receive
use assimilation_official.FsProtocol.Table.{addconn, find, lookup, new_elem, receive, send1, read}
use assimilation_official.FsProtocol.Table
use assimilation_official.FsProtocol.Endpoints.{IsTable, Added, addconn-Added}
use assimilation_official.FsProtocol.Entries.{receive-IsTable}
use assimilation_official.FsProtocol.Control.{closeall}
use assimilation_official.FsProtocol.Closing.{IsClosing, closeall-IsClosing}
use assimilation_official.FsProtocol.Sends.{log, sent-xmit_window}
use assimilation_official.Tests.Protocol.{peer, key, idle_parent, seq, numbered, idle}

abbrev start : FsProtocol
start = record { parent = idle_parent; endpoints = [] }

peer-IsWellFormed : IsWellFormed peer
peer-IsWellFormed = omega arith

addconn-Added_example : Added start 0 peer
addconn-Added_example = addconn-Added start 0 peer tt peer-IsWellFormed refl

abbrev nobody : ℕ → Option ℕ
nobody keyid = none

abbrev or_start : Option FsProtocol → FsProtocol
or_start none = start
or_start (some self) = self

abbrev received : FsProtocol
received = or_start (receive nobody 5 9 start peer (numbered 1))

received_lem : receive nobody 5 9 start peer (numbered 1) ≡ some received
unfolding receive addconn to_ipv6 find lookup new_elem Table.search_key FsQueue.new
    Receive.receive_checked Receive.sender_key_id Receive.note_identity Receive.allowed
    Receive.receive_conn Receive.receive_data FsQueue.inqsorted FsQueue.check_session
    FsQueue.inq_sequenced FsQueue.insert_sorted getseqno
received_lem = refl

receive-IsTable_example : IsTable received
receive-IsTable_example =
    receive-IsTable nobody 5 9 start peer (numbered 1) tt peer-IsWellFormed refl received_lem

-- A connection on which number 1 can be read.
abbrev ready : Elem
ready = record (idle.fspe) {
  inq = record {
    nextseqno = 1;
    sessionid = 7;
    maxqlen = 32;
    q = numbered 1 ∷ [];
    qid = 0;
    isready = true;
  };
}

abbrev waiting : FsProtocol
waiting = record { parent = record idle_parent { ipend = key ∷ [] }; endpoints = ready ∷ [] }

waiting-IsTable : IsTable waiting
unfolding new_elem
waiting-IsTable = ((refl, peer-IsWellFormed), tt, tt)

abbrev read_back : FsProtocol
read_back =
    Table.put_back waiting (Receive.read_conn 6 9 (numbered 1) (Table.conn_of waiting ready))

read_lem : read 6 9 waiting ≡ some (some (numbered 1, peer), read_back)
unfolding read Table.read_loop lookup key_equal equal same FsQueue.qhead getseqno new_elem
read_lem = refl

-- Number 1 was sent, number 2 was not.
abbrev outgoing : FsQueue
outgoing = record {
  nextseqno = 3;
  sessionid = 7;
  maxqlen = 32;
  q = numbered 1 ∷ numbered 2 ∷ [];
  qid = 0;
  isready = false;
}

abbrev half_sent : Conn
half_sent = record {
  parent = record idle_parent { window_size = 3 };
  fspe = record (idle.fspe) { outq = outgoing; lastseqsent = some (seq 1) };
}

outgoing-IsOutput : IsOutput outgoing
unfolding getseqno
outgoing-IsOutput = record {
  positive = omega arith;
  numbered = (refl, (refl, tt));
  opened = inr (omega arith);
  bounded = inr (omega arith);
}

sent-xmit_window_example : (xmit_window half_sent).parent.sent ≡ log peer (numbered 2 ∷ []) []
unfolding new_elem
sent-xmit_window_example =
    sent-xmit_window 2 half_sent outgoing-IsOutput (inr (seq 1, refl, refl, refl))

-- A connection on which something was sent.
abbrev in_use : FsProtocol
in_use = record { parent = idle_parent; endpoints = half_sent.fspe ∷ [] }

in_use-IsTable : IsTable in_use
unfolding new_elem
in_use-IsTable = ((refl, peer-IsWellFormed), tt, tt)

closeall-IsClosing_example :
    All IsClosing (closeall 5 9 in_use).endpoints × IsTable (closeall 5 9 in_use)
closeall-IsClosing_example = closeall-IsClosing 5 9 in_use in_use-IsTable
