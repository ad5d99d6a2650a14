-- ===== src/FsProtocol/Endpoints.antt =====
-- The table of connections of clientlib/fsprotocol.c: one for each endpoint and queue, which is found
-- under every form of the endpoint's address.
use assimilation_official.Common.{
  ℕ, ◌≡◌, refl, ◌⊎◌, inl, inr, ◌∙◌, sym, ap, true, false, none, some, List, [], ◌∷◌, arith,
  Bool-cases, Option-cases,
}
use mathlib.Core.Bool.{false≢true}
use mathlib.Core.Path.{subst}
use native.Mathlib.Decide.{ℕ_discrete}
use assimilation_official.NetAddr.{NetAddr, ipv6, is_ip, to_ipv6}
use assimilation_official.NetAddr.Canonical.{IsWellFormed}
use assimilation_official.NetAddr.Equal.{equal-identity_iff, equal_trans}
use assimilation_official.NetAddr.Mapped.{equal-to_ipv6, to_ipv6-v6}
use assimilation_official.FsProtocol.Types.{Key, key_equal, Elem, FsProtocol}
use assimilation_official.FsProtocol.Table.{lookup, update, search_key, find, new_elem, addconn}

-- The key of a connection holds a well-formed IPv6 address.
abbrev pub IsKey : Key → Type 0
IsKey k = (k.endpoint.addrtype ≡ ipv6) × IsWellFormed k.endpoint

pub key_equal_refl : (k : Key) → IsKey k → key_equal k k ≡ true
unfolding key_equal
key_equal_refl k h = ground (arith, (equal-identity_iff k.endpoint k.endpoint h.1 h.1).1 refl)

pub key_equal_trans :
    (a b c : Key)
    → IsKey a
    → IsKey b
    → IsKey c
    → key_equal a b ≡ true
    → key_equal c b ≡ true
    → key_equal a c ≡ true
unfolding key_equal
key_equal_trans a b c ha hb hc p q =
    ground (arith, equal_trans a.endpoint b.endpoint c.endpoint ha.1 hb.1 hc.1)

pub key_equal_sym : (a b : Key) → IsKey a → IsKey b → key_equal a b ≡ false → key_equal b a ≡ false
key_equal_sym a b ha hb h = elim (Bool-cases (key_equal b a)) [
  | inl e ↦ absurd (false≢true (sym h ∙ key_equal_trans a a b ha ha hb (key_equal_refl a ha) e))
  | inr e ↦ e
]

abbrev pub keys : List Elem → List Key
keys [] = []
keys (e ∷ rest) = e.key ∷ keys rest

-- None of the keys is equal to `k`.
abbrev pub IsFresh : Key → List Key → Type 0
IsFresh k [] = Unit
IsFresh k (j ∷ rest) = (key_equal k j ≡ false) × IsFresh k rest

-- Keys, no two of them equal.
abbrev pub Distinct : List Key → Type 0
Distinct [] = Unit
Distinct (j ∷ rest) = IsKey j × IsFresh j rest × Distinct rest

-- Every connection has a key of its own.
abbrev pub IsTable : FsProtocol → Type 0
IsTable self = Distinct (keys self.endpoints)

pub lookup-none : (k : Key) (table : List Elem) → lookup k table ≡ none → IsFresh k (keys table)
unfolding lookup
lookup-none k [] h = tt
lookup-none k (e ∷ table) h = ground (arith, lookup-none k table)

pub lookup-fresh :
    (x k : Key) (table : List Elem) {d : Elem}
    → IsFresh x (keys table)
    → lookup k table ≡ some d
    → key_equal x d.key ≡ false
unfolding lookup
lookup-fresh x k [] f h = absurd (ground arith)
lookup-fresh x k (e ∷ table) {d} f h = ground (arith, lookup-fresh x k table {d = d})

pub lookup-IsKey :
    (k : Key) (table : List Elem) {d : Elem}
    → Distinct (keys table)
    → lookup k table ≡ some d
    → IsKey d.key
unfolding lookup
lookup-IsKey k [] t h = absurd (ground arith)
lookup-IsKey k (e ∷ table) {d} t h = elim (Bool-cases (key_equal k e.key)) [
  | inl y ↦ let same : e ≡ d = ground arith in subst (λ x. IsKey x.key) same t.0
  | inr n ↦ lookup-IsKey k table {d = d} t.2 (ground arith)
]

-- Work on a connection that was found leaves the keys of the table as they are.
pub keys-update :
    (k : Key) (e : Elem) (table : List Elem) {d : Elem}
    → Distinct (keys table)
    → lookup k table ≡ some d
    → e.key ≡ d.key
    → keys (update e table) ≡ keys table
unfolding lookup update
keys-update k e [] t h s = refl
keys-update k e (x ∷ table) {d} t h s = elim (Bool-cases (key_equal k x.key)) [
  | inl y ↦
      let same : d ≡ x = ground arith in
      let ex : e.key ≡ x.key = s ∙ ap (λ z. z.key) same in
      let found : key_equal e.key x.key ≡ true = rw ex (key_equal_refl x.key t.0) in
      rw found (ap (λ j. j ∷ keys table) ex)
  | inr n ↦
      let h' : lookup k table ≡ some d = ground arith in
      let other : key_equal e.key x.key ≡ false = rw s (
        key_equal_sym x.key d.key t.0 (lookup-IsKey k table t.2 h')
          (lookup-fresh x.key k table t.1 h')) in
      rw other (ap (λ l. x.key ∷ l) (keys-update k e table t.2 h' s))
]

-- `_fsprotocol_find` looks under the IPv6 form of an address, which `_fsprotocol_addconn` files it
-- under.
search_key-to_ipv6 :
    (qid : ℕ) (dest : NetAddr) {b : NetAddr}
    → IsWellFormed dest
    → is_ip dest ≡ true
    → to_ipv6 dest ≡ some b
    → search_key qid dest ≡ some (record { qid = qid; endpoint = b })
unfolding search_key
search_key-to_ipv6 qid dest w h e = elim (ℕ_discrete dest.addrtype ipv6) [
  | yes six ↦ ground (arith, to_ipv6-v6 dest w six)
  | no other ↦ ground (arith, e)
]

-- What `_fsprotocol_addconn` promises: the connection that it returns is found afterwards, in a table
-- whose keys are still distinct, and nothing was lost.
pub record Added (self : FsProtocol) (qid : ℕ) (dest : NetAddr) : Type 0 where
  pub after : FsProtocol
  pub fspe : Elem
  pub added : addconn self qid dest ≡ some (after, fspe)
  pub found : find after qid dest ≡ some fspe
  pub table : IsTable after
  pub others : (after ≡ self) ⊎ (after ≡ record self { endpoints = fspe ∷ self.endpoints })

-- For a well-formed IPv4 or IPv6 address `_fsprotocol_addconn` finds the connection or makes it.
pub addconn-Added :
    (self : FsProtocol) (qid : ℕ) (dest : NetAddr)
    → IsTable self
    → IsWellFormed dest
    → is_ip dest ≡ true
    → Added self qid dest
unfolding addconn find lookup new_elem
addconn-Added self qid dest t w h =
    let (b, eb, wb, b6, same) = equal-to_ipv6 dest w h in
    let k : Key = record { qid = qid; endpoint = b } in
    let search = search_key-to_ipv6 qid dest w h eb in
    elim (Option-cases (lookup k self.endpoints)) [
      | inr (d, e) ↦ record {
        after = self;
        fspe = d;
        added = ground (arith, search, e);
        found = ground (arith, search, e);
        table = t;
        others = inl refl;
      }
      | inl e ↦
          let d : Elem = new_elem k in
          let after : FsProtocol = record self { endpoints = d ∷ self.endpoints } in
          record {
            after = after;
            fspe = d;
            added = ground (arith, search, e, eb);
            found = ground (arith, search, key_equal_refl k (b6, wb));
            table = ((b6, wb), lookup-none k self.endpoints e, t);
            others = inr refl;
          }
    ]
