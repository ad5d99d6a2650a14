-- ===== src/FsProtocol/Table.antt =====
-- The protocol object of clientlib/fsprotocol.c: its table of connections, and the entry points.
-- A key stands for a pointer to the connection; an Option result is `none` where the code goes
-- through a null or dangling pointer.
use assimilation_official.Common.{
  ℕ, Bool, false, not, Option, none, some, List, [], ◌∷◌, length, ◌==◌, if◌then◌else◌, replicate,
}
use assimilation_official.NetAddr.{NetAddr, ipv4, ipv6, to_ipv6}
use assimilation_official.FsQueue
use assimilation_official.FsQueue.{FsQueue}
use assimilation_official.FsQueue.Frames.{FrameSet, getseqno}
use assimilation_official.FsProtocol.Fsa.{fspr_none, gotstart, no_action, in_shutdown}
use assimilation_official.FsProtocol.Types.{
  Key, key_equal, Elem, Conn, FsProtocol, HistEntry, fspe_histsize,
}
use assimilation_official.FsProtocol.Transmit
use assimilation_official.FsProtocol.Transmit.{xmitifwecan, fsa}
use assimilation_official.FsProtocol.Receive.{receive_checked, read_conn, is_next}

-- `g_hash_table_lookup`
unfoldable pub lookup : Key → List Elem → Option Elem
lookup k [] = none
lookup k (e ∷ rest) = if key_equal k e.key then some e else lookup k rest

-- The table after a change to the object that `e` is the new value of.
unfoldable pub update : Elem → List Elem → List Elem
update e [] = []
update e (d ∷ rest) = if key_equal e.key d.key then e ∷ rest else d ∷ update e rest

-- The key that `_fsprotocol_find` looks for; no other family than IP is looked for.
unfoldable pub search_key : ℕ → NetAddr → Option Key
search_key qid destaddr =
    if destaddr.addrtype == ipv6
    then some (record { qid = qid; endpoint = destaddr })
    else if destaddr.addrtype == ipv4
    then elim (to_ipv6 destaddr) [
      | none ↦ none
      | some v6addr ↦ some (record { qid = qid; endpoint = v6addr })
    ]
    else none

-- `_fsprotocol_find`
unfoldable pub find : FsProtocol → ℕ → NetAddr → Option Elem
find self qid destaddr = elim (search_key qid destaddr) [
  | none ↦ none
  | some k ↦ lookup k self.endpoints
]

abbrev no_history : HistEntry
no_history = record { fsa_state = fspr_none; fsa_input = gotstart; fsa_action = no_action }

-- The connection that `_fsprotocol_addconn` makes.
unfoldable pub new_elem : Key → Elem
new_elem k = record {
  key = k;
  outq = FsQueue.new k.qid;
  inq = FsQueue.new k.qid;
  lastacksent = none;
  lastseqsent = none;
  nextrexmit = 0;
  acktimeout = 0;
  state = fspr_none;
  shuttimer = false;
  finalizetimer = false;
  shutdown_complete = false;
  is_encrypted = false;
  peer_identity = none;
  hist_next = 0;
  history = replicate fspe_histsize no_history;
}

-- `_fsprotocol_addconn`: with no IPv6 form of the address the new connection would be hashed through
-- a null endpoint.
unfoldable pub addconn : FsProtocol → ℕ → NetAddr → Option (FsProtocol × Elem)
addconn self qid destaddr = elim (find self qid destaddr) [
  | some fspe ↦ some (self, fspe)
  | none ↦ elim (to_ipv6 destaddr) [
    | none ↦ none
    | some v6addr ↦
        let fspe : Elem = new_elem (record { qid = qid; endpoint = v6addr }) in
        some (record self { endpoints = fspe ∷ self.endpoints }, fspe)
  ]
]

-- The protocol after its connection was worked on.
unfoldable pub put_back : FsProtocol → Conn → FsProtocol
put_back self c = record { parent = c.parent; endpoints = update c.fspe self.endpoints }

abbrev pub conn_of : FsProtocol → Elem → Conn
conn_of self fspe = record { parent = self.parent; fspe = fspe }

-- The queue id that `_fsprotocol_findbypkt` looks for.
abbrev pub packet_qid : FrameSet → ℕ
packet_qid fs = elim (getseqno fs) [ none ↦ 0 | some seq ↦ seq.qid ]

-- `_fsprotocol_receive`
unfoldable pub receive :
    (ℕ → Option ℕ) → ℕ → ℕ → FsProtocol → NetAddr → FrameSet → Option FsProtocol
receive whois now static self fromaddr fs = elim (addconn self (packet_qid fs) fromaddr) [
  | none ↦ none
  | some (self1, fspe) ↦ elim (receive_checked whois now static fs (conn_of self1 fspe)) [
    | none ↦ none
    | some c ↦ some (put_back self1 c)
  ]
]

-- `_fsprotocol_send1`
unfoldable pub send1 : ℕ → ℕ → FsProtocol → FrameSet → ℕ → NetAddr → Option (Bool × FsProtocol)
send1 now static self fs qid toaddr = elim (addconn self qid toaddr) [
  | none ↦ none
  | some (self1, fspe) ↦
      let (ret, c) = Transmit.send1 now static fs (conn_of self1 fspe) in
      some (ret, put_back self1 c)
]

-- The loop of `_fsprotocol_send`, which does not look at what `_fsprotocol_send1` returns.
unfoldable send_all : ℕ → ℕ → FsProtocol → List FrameSet → ℕ → NetAddr → Option FsProtocol
send_all now static self [] qid toaddr = some self
send_all now static self (fs ∷ rest) qid toaddr = elim (send1 now static self fs qid toaddr) [
  | none ↦ none
  | some (ret, self1) ↦ send_all now static self1 rest qid toaddr
]

-- `TRYXMIT` on the connection to an address.
unfoldable xmit_to : ℕ → FsProtocol → ℕ → NetAddr → Option FsProtocol
xmit_to now self qid toaddr = elim (find self qid toaddr) [
  | none ↦ none
  | some fspe ↦ some (put_back self (xmitifwecan now (conn_of self fspe)))
]

-- `_fsprotocol_send`
unfoldable send : ℕ → ℕ → FsProtocol → List FrameSet → ℕ → NetAddr → Option (Bool × FsProtocol)
send now static self framesets qid toaddr = elim (addconn self qid toaddr) [
  | none ↦ none
  | some (self1, fspe) ↦
      if in_shutdown fspe.state
      then some (false, self1)
      else (let ret : Bool = FsQueue.hasqspace fspe.outq (length framesets) in
          let queued : Option FsProtocol =
            if ret then send_all now static self1 framesets qid toaddr else some self1 in
          elim queued [
            | none ↦ none
            | some self2 ↦ elim (xmit_to now self2 qid toaddr) [
              | none ↦ none
              | some self3 ↦ some (ret, self3)
            ]
          ])
]

-- `_fsprotocol_read`: the links of `ipend` that are still to be looked at. The result is the
-- frameset and its origin, or nothing.
unfoldable pub read_loop :
    ℕ → ℕ → FsProtocol → List Key → Option (Option (FrameSet × NetAddr) × FsProtocol)
read_loop now static self [] = some (none, self)
read_loop now static self (k ∷ rest) = elim (lookup k self.endpoints) [
  | none ↦ none
  | some fspe ↦ elim (FsQueue.qhead fspe.inq) [
    | none ↦ read_loop now static self rest
    | some fs ↦
        let waiting : FsProtocol = put_back self (xmitifwecan now (conn_of self fspe)) in
        let later : Option (Option (FrameSet × NetAddr) × FsProtocol) =
          read_loop now static waiting rest in
        if is_next (getseqno fs) fspe.inq
        then some (
          some (fs, fspe.key.endpoint),
          put_back self (read_conn now static fs (conn_of self fspe)),
        )
        else later
  ]
]

unfoldable pub read : ℕ → ℕ → FsProtocol → Option (Option (FrameSet × NetAddr) × FsProtocol)
read now static self = read_loop now static self self.parent.ipend

-- `_fsprotocol_iready`
unfoldable iready : FsProtocol → Bool
iready self = not (length self.parent.ipend == 0)

-- `_fsprotocol_outputpending`
unfoldable outputpending : FsProtocol → Bool
outputpending self = not (length self.parent.unacked == 0)
