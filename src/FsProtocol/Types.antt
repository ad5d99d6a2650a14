-- ===== src/FsProtocol/Types.antt =====
-- The objects of include/fsprotocol.h: a connection (FSPE), and the parts of the protocol object
-- that its connections share.
use assimilation_official.Common.{ℕ, Bool, ◌&&◌, Option, List, ◌==◌}
use assimilation_official.NetAddr.{NetAddr, equal}
use assimilation_official.Seqno.{Seqno}
use assimilation_official.FsQueue.{FsQueue}
use assimilation_official.FsQueue.Frames.{FrameSet}
use assimilation_official.FsProtocol.Fsa.{State, Input, Actions}

-- `struct _FsProtoElemSearchKey`, which stands for the connection wherever the code keeps a pointer
-- to it: in the table, in `unacked` and in `ipend`.
pub record Key : Type 0 where
  pub qid : ℕ
  pub endpoint : NetAddr

-- `_fsprotocol_protoelem_equal`
unfoldable pub key_equal : Key → Key → Bool
key_equal lhs rhs = lhs.qid == rhs.qid && equal lhs.endpoint rhs.endpoint

pub record HistEntry : Type 0 where
  pub fsa_state : State
  pub fsa_input : Input
  pub fsa_action : Actions

abbrev pub fspe_histsize : ℕ
fspe_histsize = 8

-- `struct _FsProtoElem`. A timer is true while its source runs; identities are numbers.
pub record Elem : Type 0 where
  pub key : Key
  pub outq : FsQueue
  pub inq : FsQueue
  pub lastacksent : Option Seqno
  pub lastseqsent : Option Seqno
  pub nextrexmit : ℕ
  pub acktimeout : ℕ
  pub state : State
  pub shuttimer : Bool
  pub finalizetimer : Bool
  pub shutdown_complete : Bool
  pub is_encrypted : Bool
  pub peer_identity : Option ℕ
  pub hist_next : ℕ
  pub history : List HistEntry

-- What all connections share: the fields of `struct _FsProtocol` but for the table, what was handed
-- to `sendaframeset` so far (newest first), and the counters that the protocol keeps.
pub record Parent : Type 0 where
  pub unacked : List Key
  pub ipend : List Key
  pub window_size : ℕ
  pub rexmit_interval : ℕ
  pub acktimeout : ℕ
  pub sent : List (NetAddr × FrameSet)
  pub acksrecvd : ℕ
  pub ackssent : ℕ
  pub reliablesends : ℕ
  pub reliablereads : ℕ

-- A connection with its parent: what the code sees through `fspe` and `fspe->parent`.
pub record Conn : Type 0 where
  pub parent : Parent
  pub fspe : Elem

-- The whole protocol object: `endpoints` is its hash table.
pub record FsProtocol : Type 0 where
  pub parent : Parent
  pub endpoints : List Elem
