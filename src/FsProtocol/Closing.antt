-- ===== src/FsProtocol/Closing.antt =====
-- After `_fsprotocol_closeall` of clientlib/fsprotocol.c every connection that is left is shutting down
-- or has ended.
use assimilation_official.Common.{
  ℕ, ◌≡◌, ◌≢◌, refl, ◌⊎◌, inl, inr, ◌∙◌, sym, ap, true, false, none, some, List, [], ◌∷◌, arith,
  All, Option-cases, Bool-cases,
}
use mathlib.Core.Bool.{false≢true}
use assimilation_official.FsProtocol.Fsa.{fspr_none, reqshutdown, in_shutdown}
use assimilation_official.FsProtocol.Fsa.Laws.{reqshutdown_ends}
use assimilation_official.FsProtocol.Types.{Key, key_equal, Elem, Parent, Conn, FsProtocol}
use assimilation_official.FsProtocol.Conn.{fsa_with, fsa_finish}
use assimilation_official.FsProtocol.Transmit.{fsa}
use assimilation_official.FsProtocol.Table.{lookup, update, find, search_key, put_back, conn_of}
use assimilation_official.FsProtocol.Control.{
  closeconn, closeall, close_each, remove_closable, canclose_immediately, protoelem_destroy,
}
use assimilation_official.FsProtocol.Keys.{fsa-SameKey}
use assimilation_official.FsProtocol.Endpoints.{
  IsTable, Distinct, IsFresh, IsKey, keys, key_equal_refl, key_equal_sym, lookup-none, lookup-IsKey,
  lookup-fresh,
}
use assimilation_official.FsProtocol.Entries.{closeconn-IsTable}

-- A connection that is shutting down, or not in use.
abbrev pub IsClosing : Elem → Type 0
IsClosing e = (in_shutdown e.state ≡ true) ⊎ (e.state ≡ fspr_none)

fsa-IsClosing : (now static : ℕ) (c : Conn) → IsClosing (fsa now static reqshutdown none c).fspe
unfolding fsa fsa_with fsa_finish
fsa-IsClosing now static c = reqshutdown_ends c.fspe.state

-- A key of one of the connections of a list.
abbrev InKeys : Key → List Elem → Type 0
InKeys k [] = ⊥
InKeys k (d ∷ rest) = (k ≡ d.key) ⊎ InKeys k rest

-- A connection that is closing, or still to be closed.
abbrev IsDue : List Elem → Elem → Type 0
IsDue rest e = IsClosing e ⊎ InKeys e.key rest

-- A connection whose key is not that of the first one is due after it as well.
IsDue-tail :
    (d : Elem) (rest : List Elem) (e : Elem) → e.key ≢ d.key → IsDue (d ∷ rest) e → IsDue rest e
IsDue-tail d rest e other (inl c) = inl c
IsDue-tail d rest e other (inr (inl same)) = absurd (other same)
IsDue-tail d rest e other (inr (inr i)) = inr i

-- Keys that are not equal by `_fsprotocol_protoelem_equal` are not the same.
key_equal-false :
    (x k j : Key) → IsKey x → IsKey k → key_equal k x ≡ true → key_equal x j ≡ false → j ≢ k
key_equal-false x k j hx hk h f same =
    false≢true (sym (key_equal_sym x k hx hk (ap (key_equal x) (sym same) ∙ f)) ∙ h)

IsDue-keys :
    (d : Elem) (rest : List Elem) (x : Key) (table : List Elem)
    → IsKey x
    → IsKey d.key
    → key_equal d.key x ≡ true
    → IsFresh x (keys table)
    → All (IsDue (d ∷ rest)) table
    → All (IsDue rest) table
IsDue-keys d rest x [] hx hd h f a = tt
IsDue-keys d rest x (e ∷ table) hx hd h f a = (
  IsDue-tail d rest e (key_equal-false x d.key e.key hx hd h f.0) a.0,
  IsDue-keys d rest x table hx hd h f.1 a.1,
)

-- Closing the first connection of those due leaves the others.
update-IsDue :
    (d : Elem) (rest table : List Elem) (new : Elem) {x : Elem}
    → IsKey d.key
    → Distinct (keys table)
    → lookup d.key table ≡ some x
    → new.key ≡ x.key
    → IsClosing new
    → All (IsDue (d ∷ rest)) table
    → All (IsDue rest) (update new table)
unfolding lookup update
update-IsDue d rest [] new hd t h s c a = tt
update-IsDue d rest (e ∷ table) new {x} hd t h s c a = elim (Bool-cases (key_equal d.key e.key)) [
  | inl y ↦
      let same : x ≡ e = ground arith in
      let en : new.key ≡ e.key = s ∙ ap (λ z. z.key) same in
      let found : key_equal new.key e.key ≡ true = rw en (key_equal_refl e.key t.0) in
      rw found (inl c, IsDue-keys d rest e.key table t.0 hd y t.1 a.1)
  | inr n ↦
      let h' : lookup d.key table ≡ some x = ground arith in
      let hx : IsKey x.key = lookup-IsKey d.key table t.2 h' in
      let other : key_equal new.key e.key ≡ false =
        rw s (key_equal_sym e.key x.key t.0 hx (lookup-fresh e.key d.key table t.1 h')) in
      let apart : e.key ≢ d.key =
        λ same. false≢true (sym n ∙ ap (key_equal d.key) same ∙ key_equal_refl d.key hd) in
      rw other
        (IsDue-tail d rest e apart a.0, update-IsDue d rest table new {x = x} hd t.2 h' s c a.1)
]

-- `_fsprotocol_find` with the endpoint of a key looks for that key.
find_key :
    (self : FsProtocol) (k : Key) → IsKey k → find self k.qid k.endpoint ≡ lookup k self.endpoints
unfolding find search_key
find_key self k h = ground arith

closeconn-IsDue :
    (now static : ℕ) (self : FsProtocol) (d : Elem) (rest : List Elem)
    → IsTable self
    → IsKey d.key
    → All (IsDue (d ∷ rest)) self.endpoints
    → All (IsDue rest) (closeconn now static self d.key.qid d.key.endpoint).endpoints
unfolding put_back closeconn
closeconn-IsDue now static self d rest t hd a = elim (Option-cases (lookup d.key self.endpoints)) [
  | inl e ↦
      rw (find_key self d.key hd, closeconn, e)
        (IsDue-keys d rest d.key self.endpoints hd hd (key_equal_refl d.key hd)
          (lookup-none d.key self.endpoints e) a)
  | inr (x, e) ↦
      let c : Conn = fsa now static reqshutdown none (conn_of self x) in
      rw (find_key self d.key hd, closeconn, e)
        (update-IsDue d rest self.endpoints c.fspe {x = x} hd t e
          (fsa-SameKey now static reqshutdown none (conn_of self x))
          (fsa-IsClosing now static (conn_of self x)) a)
]

IsDue-cons :
    (d : Elem) (rest table : List Elem) → All (IsDue rest) table → All (IsDue (d ∷ rest)) table
IsDue-cons d rest [] a = tt
IsDue-cons d rest (e ∷ table) (inl c, a) = (inl c, IsDue-cons d rest table a)
IsDue-cons d rest (e ∷ table) (inr i, a) = (inr (inr i), IsDue-cons d rest table a)

All-IsDue : (table : List Elem) → All (IsDue table) table
All-IsDue [] = tt
All-IsDue (e ∷ table) = (inr (inl refl), IsDue-cons e table table (All-IsDue table))

IsDue-nil : (table : List Elem) → All (IsDue []) table → All IsClosing table
IsDue-nil [] a = tt
IsDue-nil (e ∷ table) (inl c, a) = (c, IsDue-nil table a)
IsDue-nil (e ∷ table) (inr i, a) = elim i [ ]

close_each-IsClosing :
    (now static : ℕ) (self : FsProtocol) (rest : List Elem)
    → IsTable self
    → Distinct (keys rest)
    → All (IsDue rest) self.endpoints
    → All IsClosing (close_each now static self rest).endpoints
      × IsTable (close_each now static self rest)
unfolding close_each
close_each-IsClosing now static self [] t k a = (IsDue-nil self.endpoints a, t)
close_each-IsClosing now static self (d ∷ rest) t k a =
    close_each-IsClosing now static (closeconn now static self d.key.qid d.key.endpoint) rest
      (closeconn-IsTable now static self d.key.qid d.key.endpoint t) k.2
      (closeconn-IsDue now static self d rest t k.0 a)

-- The connections that are closed at once are taken from the table; the others stay apart.
remove_closable-IsFresh :
    (parent : Parent) (table : List Elem) (k : Key)
    → IsFresh k (keys table)
    → IsFresh k (keys (remove_closable parent table).endpoints)
unfolding remove_closable
remove_closable-IsFresh parent [] k f = tt
remove_closable-IsFresh parent (e ∷ table) k f = elim (Bool-cases (canclose_immediately e)) [
  | inl y ↦ rw y (remove_closable-IsFresh (protoelem_destroy parent e) table k f.1)
  | inr n ↦ rw n (f.0, remove_closable-IsFresh parent table k f.1)
]

remove_closable-IsTable :
    (parent : Parent) (table : List Elem)
    → Distinct (keys table)
    → IsTable (remove_closable parent table)
unfolding remove_closable
remove_closable-IsTable parent [] t = tt
remove_closable-IsTable parent (e ∷ table) t = elim (Bool-cases (canclose_immediately e)) [
  | inl y ↦ rw y (remove_closable-IsTable (protoelem_destroy parent e) table t.2)
  | inr n ↦ rw n (
    t.0,
    remove_closable-IsFresh parent table e.key t.1,
    remove_closable-IsTable parent table t.2,
  )
]

-- On a table with one connection for each key, `_fsprotocol_closeall` leaves only connections that are
-- shutting down or not in use, and still one for each key.
pub closeall-IsClosing :
    (now static : ℕ) (self : FsProtocol)
    → IsTable self
    → All IsClosing (closeall now static self).endpoints × IsTable (closeall now static self)
unfolding closeall
closeall-IsClosing now static self t =
    let left : FsProtocol = remove_closable self.parent self.endpoints in
    let tl : IsTable left = remove_closable-IsTable self.parent self.endpoints t in
    close_each-IsClosing now static left left.endpoints tl tl (All-IsDue left.endpoints)
