-- ===== src/FsProtocol/Control.antt =====
-- The entry points of clientlib/fsprotocol.c that close connections and count them, and its timers.
-- The hash table is gone through in the order of the list.
use assimilation_official.Common.{
  ℕ, ◌+◌, Bool, true, false, not, ◌&&◌, ◌||◌, Option, none, some, List, [], ◌∷◌, ltb, leb, ◌==◌,
  if◌then◌else◌, map,
}
use assimilation_official.NetAddr.{NetAddr}
use assimilation_official.FsQueue.Frames.{FrameSet, getseqno}
use assimilation_official.FsProtocol.Fsa.{State, fspr_none, reqshutdown, shut_to}
use assimilation_official.FsProtocol.Types.{Key, key_equal, Elem, Parent, Conn, FsProtocol}
use assimilation_official.FsProtocol.Conn.{reinit, ackseqno}
use assimilation_official.FsProtocol.Transmit.{xmitifwecan, fsa}
use assimilation_official.FsProtocol.Table.{lookup, find, put_back, conn_of}

-- `_fsprotocol_closeconn`
unfoldable pub closeconn : ℕ → ℕ → FsProtocol → ℕ → NetAddr → FsProtocol
closeconn now static self qid destaddr = elim (find self qid destaddr) [
  | none ↦ self
  | some fspe ↦ put_back self (fsa now static reqshutdown none (conn_of self fspe))
]

-- `_fsprotocol_canclose_immediately`
unfoldable pub canclose_immediately : Elem → Bool
canclose_immediately fspe = leb fspe.outq.nextseqno 1 && leb fspe.inq.nextseqno 1

-- `_fsprotocol_protoelem_destroy`, for what it does to the parent.
unfoldable pub protoelem_destroy : Parent → Elem → Parent
protoelem_destroy parent fspe = (reinit (record { parent = parent; fspe = fspe })).parent

-- The `g_hash_table_foreach_remove` of `_fsprotocol_closeall`.
unfoldable pub remove_closable : Parent → List Elem → FsProtocol
remove_closable parent [] = record { parent = parent; endpoints = [] }
remove_closable parent (fspe ∷ rest) =
    let dropped : FsProtocol = remove_closable (protoelem_destroy parent fspe) rest in
    let kept : FsProtocol = remove_closable parent rest in
    if canclose_immediately fspe then dropped else record kept { endpoints = fspe ∷ kept.endpoints }

-- The second loop of `_fsprotocol_closeall`, over the connections left.
unfoldable pub close_each : ℕ → ℕ → FsProtocol → List Elem → FsProtocol
close_each now static self [] = self
close_each now static self (fspe ∷ rest) =
    close_each now static (closeconn now static self fspe.key.qid fspe.key.endpoint) rest

-- `_fsprotocol_closeall`
unfoldable pub closeall : ℕ → ℕ → FsProtocol → FsProtocol
closeall now static self =
    let left : FsProtocol = remove_closable self.parent self.endpoints in
    close_each now static left left.endpoints

abbrev is_none : State → Bool
is_none fspr_none = true
is_none _ = false

-- The test of `_fsprotocol_activeconncount`.
unfoldable is_active : Elem → Bool
is_active fspe =
    not (is_none fspe.state)
    && ((ltb 1 fspe.inq.nextseqno || ltb 1 fspe.outq.nextseqno) && not fspe.shutdown_complete)

unfoldable count_active : List Elem → ℕ
count_active [] = 0
count_active (fspe ∷ rest) =
    let more : ℕ = count_active rest in if is_active fspe then more + 1 else more

abbrev reopen : Elem → Elem
reopen fspe = record fspe { shutdown_complete = false }

-- `_fsprotocol_activeconncount`, with its side effect when no connection is active.
unfoldable activeconncount : FsProtocol → ℕ × FsProtocol
activeconncount self =
    let count : ℕ = count_active self.endpoints in
    (count, if count == 0 then record self { endpoints = map reopen self.endpoints } else self)

-- `_fsprotocol_connstate`
unfoldable connstate : FsProtocol → ℕ → NetAddr → State
connstate self qid destaddr = elim (find self qid destaddr) [
  | none ↦ fspr_none
  | some fspe ↦ fspe.state
]

-- `_fsprotocol_ackmessage`: for a connection that is not there the code goes through a null pointer.
unfoldable ackmessage : FsProtocol → NetAddr → FrameSet → Option FsProtocol
ackmessage self destaddr fs = elim (getseqno fs) [
  | none ↦ some self
  | some seq ↦ elim (find self seq.qid destaddr) [
    | none ↦ none
    | some fspe ↦ some (put_back self (ackseqno destaddr seq (conn_of self fspe)))
  ]
]

-- The loop of `_fsprotocol_timeoutfun`, over the links that the list had when it began.
unfoldable pub xmit_each : ℕ → FsProtocol → List Key → Option FsProtocol
xmit_each now self [] = some self
xmit_each now self (k ∷ rest) = elim (lookup k self.endpoints) [
  | none ↦ none
  | some fspe ↦ xmit_each now (put_back self (xmitifwecan now (conn_of self fspe))) rest
]

-- `_fsprotocol_timeoutfun`
unfoldable pub timeoutfun : ℕ → FsProtocol → Option FsProtocol
timeoutfun now self = xmit_each now self self.parent.unacked

-- `_fsprotocol_shuttimeout`
unfoldable shuttimeout : ℕ → ℕ → Conn → Conn
shuttimeout now static c = fsa now static shut_to none c

-- `g_hash_table_remove`
unfoldable remove_elem : Key → List Elem → List Elem
remove_elem k [] = []
remove_elem k (e ∷ rest) = if key_equal k e.key then rest else e ∷ remove_elem k rest

-- `_fsprotocol_fspe_closeconn`
unfoldable fspe_closeconn : FsProtocol → Elem → FsProtocol
fspe_closeconn self fspe = record {
  parent = protoelem_destroy self.parent fspe;
  endpoints = remove_elem fspe.key self.endpoints;
}

-- `_fsprotocol_finalizetimer`
unfoldable finalizetimer : FsProtocol → Elem → FsProtocol
finalizetimer self fspe = if is_none fspe.state then fspe_closeconn self fspe else self
