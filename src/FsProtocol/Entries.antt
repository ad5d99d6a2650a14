-- ===== src/FsProtocol/Entries.antt =====
-- The entry points of clientlib/fsprotocol.c keep one connection for each endpoint and queue.
use assimilation_official.Common.{
  ℕ, ◌≡◌, refl, inl, inr, sym, Bool, true, Option, none, some, List, [], ◌∷◌, arith, Bool-cases,
  Option-cases,
}
use mathlib.Core.Path.{subst}
use assimilation_official.NetAddr.{NetAddr, is_ip}
use assimilation_official.NetAddr.Canonical.{IsWellFormed}
use assimilation_official.FsQueue
use assimilation_official.FsQueue.Frames.{FrameSet, getseqno}
use assimilation_official.FsProtocol.Fsa.{reqshutdown}
use assimilation_official.FsProtocol.Types.{Key, Elem, Conn, FsProtocol}
use assimilation_official.FsProtocol.Table.{
  lookup, search_key, find, put_back, conn_of, receive, packet_qid, send1, read_loop, read,
}
use assimilation_official.FsProtocol.Transmit
use assimilation_official.FsProtocol.Transmit.{xmitifwecan, fsa}
use assimilation_official.FsProtocol.Receive.{receive_checked, read_conn, is_next}
use assimilation_official.FsProtocol.Control.{closeconn, timeoutfun, xmit_each}
use assimilation_official.FsProtocol.Keys.{send1-SameKey, xmitifwecan-SameKey, fsa-SameKey}
use assimilation_official.FsProtocol.Keys.Receiving.{receive_checked-SameKey, read_conn-SameKey}
use assimilation_official.FsProtocol.Endpoints.{IsTable, Distinct, keys-update, addconn-Added}

put_back-IsTable :
    (self : FsProtocol) (c : Conn) (k : Key) (d : Elem)
    → IsTable self
    → lookup k self.endpoints ≡ some d
    → c.fspe.key ≡ d.key
    → IsTable (put_back self c)
unfolding put_back
put_back-IsTable self c k d t h s =
    subst Distinct (sym (keys-update k c.fspe self.endpoints {d = d} t h s)) t

find-lookup :
    (self : FsProtocol) (qid : ℕ) (dest : NetAddr) (d : Elem)
    → find self qid dest ≡ some d
    → (k : Key) × (lookup k self.endpoints ≡ some d)
unfolding find
find-lookup self qid dest d h = elim (Option-cases (search_key qid dest)) [
  | inl e ↦ absurd (ground arith)
  | inr (k, e) ↦ (k, ground arith)
]

-- A connection that was found, worked on and put back.
found-IsTable :
    (self : FsProtocol) (qid : ℕ) (dest : NetAddr) (d : Elem) (c : Conn)
    → IsTable self
    → find self qid dest ≡ some d
    → c.fspe.key ≡ d.key
    → IsTable (put_back self c)
found-IsTable self qid dest d c t h s =
    let (k, e) = find-lookup self qid dest d h in put_back-IsTable self c k d t e s

-- A frameset from a well-formed IP address leaves the table with one connection for each key.
pub receive-IsTable :
    (whois : ℕ → Option ℕ) (now static : ℕ) (self : FsProtocol) (from : NetAddr) (fs : FrameSet)
    {after : FsProtocol}
    → IsTable self
    → IsWellFormed from
    → is_ip from ≡ true
    → receive whois now static self from fs ≡ some after
    → IsTable after
unfolding receive
receive-IsTable whois now static self from fs {after} t w h e =
    let a = addconn-Added self (packet_qid fs) from t w h in
    elim (Option-cases (receive_checked whois now static fs (conn_of a.after a.fspe))) [
      | inl n ↦ absurd (ground (arith, a.added))
      | inr (c, k) ↦
          let same : put_back a.after c ≡ after = ground (arith, a.added) in
          subst IsTable same (
            found-IsTable a.after (packet_qid fs) from a.fspe c a.table a.found
              (receive_checked-SameKey whois now static fs (conn_of a.after a.fspe) k))
    ]

-- Sending to a well-formed IP address always finds a connection or makes one, and leaves the table
-- with one connection for each key.
pub send1-IsTable :
    (now static : ℕ) (self : FsProtocol) (fs : FrameSet) (qid : ℕ) (dest : NetAddr)
    → IsTable self
    → IsWellFormed dest
    → is_ip dest ≡ true
    → (ret : Bool) × (after : FsProtocol) × (send1 now static self fs qid dest ≡ some (ret, after))
      × IsTable after
unfolding send1
send1-IsTable now static self fs qid dest t w h =
    let a = addconn-Added self qid dest t w h in
    let r : Bool × Conn = Transmit.send1 now static fs (conn_of a.after a.fspe) in
    (
      r.0,
      put_back a.after r.1,
      rw (a.added, send1) refl,
      found-IsTable a.after qid dest a.fspe r.1 a.table a.found
          (send1-SameKey now static fs (conn_of a.after a.fspe)),
    )

-- Closing one keeps them apart.
pub closeconn-IsTable :
    (now static : ℕ) (self : FsProtocol) (qid : ℕ) (dest : NetAddr)
    → IsTable self
    → IsTable (closeconn now static self qid dest)
unfolding closeconn
closeconn-IsTable now static self qid dest t = elim (Option-cases (find self qid dest)) [
  | inl e ↦ rw (e, closeconn) t
  | inr (d, e) ↦
      rw (e, closeconn)
        (found-IsTable self qid dest d (fsa now static reqshutdown none (conn_of self d)) t e
          (fsa-SameKey now static reqshutdown none (conn_of self d)))
]

xmit_each-IsTable :
    (now : ℕ) (self : FsProtocol) (links : List Key) {after : FsProtocol}
    → IsTable self
    → xmit_each now self links ≡ some after
    → IsTable after
unfolding xmit_each
xmit_each-IsTable now self [] {after} t h =
    let same : self ≡ after = ground arith in subst IsTable same t
xmit_each-IsTable now self (k ∷ links) {after} t h = elim (Option-cases (lookup k self.endpoints)) [
  | inl e ↦ absurd (ground arith)
  | inr (d, e) ↦
      xmit_each-IsTable now (put_back self (xmitifwecan now (conn_of self d))) links {after = after}
        (put_back-IsTable self (xmitifwecan now (conn_of self d)) k d t e
          (xmitifwecan-SameKey now (conn_of self d)))
        (ground (arith, e))
]

read_loop-IsTable :
    (now static : ℕ) (self : FsProtocol) (links : List Key) {got : Option (FrameSet × NetAddr)}
    {after : FsProtocol}
    → IsTable self
    → read_loop now static self links ≡ some (got, after)
    → IsTable after
unfolding read_loop
read_loop-IsTable now static self [] {got} {after} t h =
    let same : self ≡ after = ground arith in subst IsTable same t
read_loop-IsTable now static self (k ∷ links) {got} {after} t h =
    elim (Option-cases (lookup k self.endpoints)) [
      | inl e ↦ absurd (ground arith)
      | inr (d, e) ↦ elim (Option-cases (FsQueue.qhead d.inq)) [
        | inl none_left ↦
            read_loop-IsTable now static self links {got = got} {after = after} t
              (ground (arith, e, none_left))
        | inr (fs, q) ↦ elim (Bool-cases (is_next (getseqno fs) d.inq)) [
          | inl y ↦
              let c : Conn = read_conn now static fs (conn_of self d) in
              let same : put_back self c ≡ after = ground (arith, e, q, y) in
              subst IsTable same
                (put_back-IsTable self c k d t e (read_conn-SameKey now static fs (conn_of self d)))
          | inr n ↦
              let c : Conn = xmitifwecan now (conn_of self d) in
              read_loop-IsTable now static (put_back self c) links {got = got} {after = after}
                (put_back-IsTable self c k d t e (xmitifwecan-SameKey now (conn_of self d)))
                (ground (arith, e, q, n))
        ]
      ]
    ]

-- Reading keeps them apart, whatever is read.
pub read-IsTable :
    (now static : ℕ) (self : FsProtocol) {got : Option (FrameSet × NetAddr)} {after : FsProtocol}
    → IsTable self
    → read now static self ≡ some (got, after)
    → IsTable after
unfolding read
read-IsTable now static self {got} {after} t h =
    read_loop-IsTable now static self self.parent.ipend {got = got} {after = after} t h

-- The retransmit timer keeps them apart.
pub timeoutfun-IsTable :
    (now : ℕ) (self : FsProtocol) {after : FsProtocol}
    → IsTable self
    → timeoutfun now self ≡ some after
    → IsTable after
unfolding timeoutfun
timeoutfun-IsTable now self {after} t h =
    xmit_each-IsTable now self self.parent.unacked {after = after} t h
