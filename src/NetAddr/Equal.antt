-- ===== src/NetAddr/Equal.antt =====
-- `_netaddr_equal` and `_netaddr_hash` (clientlib/netaddr.c) see the same: the IPv6 form.
use assimilation_official.Common.{
  ℕ, ◌≡◌, inl, inr, ◌≢◌, ◌↔◌, true, arith, if◌then◌else◌, ◌∙◌, sym, ap,
}
use Prim.Native.Nat.{bit_xor}
use assimilation_official.NetAddr.{NetAddr, ipv4, ipv6, equal, addrtouse, hash, hash_bytes, is_ip}
use assimilation_official.NetAddr.Canonical.{
  IsWellFormed, same_iff, v6_v4, v6_v6, v4_v4, identity, addrtouse-v4, addrtouse-v6, family,
}

-- One lemma for each pair of families.
module _ (a b : NetAddr) (wa : IsWellFormed a) (wb : IsWellFormed b) where
  equal_66 : a.addrtype ≡ ipv6 → b.addrtype ≡ ipv6 → (equal a b ≡ true) ↔ (identity a ≡ identity b)
  unfolding equal
  equal_66 ha hb = ground (
    arith,
    addrtouse-v6 a ha,
    addrtouse-v6 b hb,
    v6_v6 a.addrbody b.addrbody (wa.1 ha) (wb.1 hb),
    wa.1 ha,
    wb.1 hb,
  )

  equal_64 : a.addrtype ≡ ipv6 → b.addrtype ≡ ipv4 → (equal a b ≡ true) ↔ (identity a ≡ identity b)
  unfolding equal
  equal_64 ha hb = ground (
    arith,
    addrtouse-v6 a ha,
    addrtouse-v4 b wb hb,
    v6_v4 a.addrbody b.addrbody (wa.1 ha) (wb.0 hb),
  )

  equal_46 : a.addrtype ≡ ipv4 → b.addrtype ≡ ipv6 → (equal a b ≡ true) ↔ (identity a ≡ identity b)
  unfolding equal
  equal_46 ha hb = ground (
    arith,
    addrtouse-v4 a wa ha,
    addrtouse-v6 b hb,
    v6_v4 b.addrbody a.addrbody (wb.1 hb) (wa.0 ha),
  )

  equal_44 : a.addrtype ≡ ipv4 → b.addrtype ≡ ipv4 → (equal a b ≡ true) ↔ (identity a ≡ identity b)
  unfolding equal
  equal_44 ha hb = ground (
    arith,
    addrtouse-v4 a wa ha,
    addrtouse-v4 b wb hb,
    v4_v4 a.addrbody b.addrbody (wa.0 ha) (wb.0 hb),
    wa.0 ha,
    wb.0 hb,
  )

  equal_xx :
      (a.addrtype ≢ ipv6) × (a.addrtype ≢ ipv4)
      → (b.addrtype ≢ ipv6) × (b.addrtype ≢ ipv4)
      → (equal a b ≡ true) ↔ (identity a ≡ identity b)
  unfolding equal
  equal_xx ha hb = ground (arith, same_iff a.addrbody b.addrbody)

  equal_6x :
      a.addrtype ≡ ipv6
      → (b.addrtype ≢ ipv6) × (b.addrtype ≢ ipv4)
      → (equal a b ≡ true) ↔ (identity a ≡ identity b)
  unfolding equal
  equal_6x ha hb = ground (arith, addrtouse-v6 a ha)

  equal_4x :
      a.addrtype ≡ ipv4
      → (b.addrtype ≢ ipv6) × (b.addrtype ≢ ipv4)
      → (equal a b ≡ true) ↔ (identity a ≡ identity b)
  unfolding equal
  equal_4x ha hb = ground (arith, addrtouse-v4 a wa ha)

  equal_x6 :
      (a.addrtype ≢ ipv6) × (a.addrtype ≢ ipv4)
      → b.addrtype ≡ ipv6
      → (equal a b ≡ true) ↔ (identity a ≡ identity b)
  unfolding equal
  equal_x6 ha hb = ground (arith, addrtouse-v6 b hb)

  equal_x4 :
      (a.addrtype ≢ ipv6) × (a.addrtype ≢ ipv4)
      → b.addrtype ≡ ipv4
      → (equal a b ≡ true) ↔ (identity a ≡ identity b)
  unfolding equal
  equal_x4 ha hb = ground (arith, addrtouse-v4 b wb hb)

-- `_netaddr_equal` decides whether two well-formed addresses are known by the same.
pub equal-identity_iff :
    (a b : NetAddr)
    → IsWellFormed a
    → IsWellFormed b
    → (equal a b ≡ true) ↔ (identity a ≡ identity b)
equal-identity_iff a b wa wb = elim (family a) [
  | inl a6 ↦ elim (family b) [
    | inl b6 ↦ equal_66 a b wa wb a6 b6
    | inr (inl b4) ↦ equal_64 a b wa wb a6 b4
    | inr (inr bx) ↦ equal_6x a b wa wb a6 bx
  ]
  | inr (inl a4) ↦ elim (family b) [
    | inl b6 ↦ equal_46 a b wa wb a4 b6
    | inr (inl b4) ↦ equal_44 a b wa wb a4 b4
    | inr (inr bx) ↦ equal_4x a b wa wb a4 bx
  ]
  | inr (inr ax) ↦ elim (family b) [
    | inl b6 ↦ equal_x6 a b wa wb ax b6
    | inr (inl b4) ↦ equal_x4 a b wa wb ax b4
    | inr (inr bx) ↦ equal_xx a b wa wb ax bx
  ]
]

-- The hash looks at nothing but what the address is known by.
abbrev hash_identity : ℕ → NetAddr → ℕ
hash_identity hashseed used =
    let start : ℕ = bit_xor used.addrtype hashseed in
    hash_bytes (if is_ip used then bit_xor start used.addrport else start) used.addrbody

hash-identity : (hashseed : ℕ) (a : NetAddr) → hash hashseed a ≡ hash_identity hashseed (identity a)
unfolding hash
hash-identity hashseed a = elim (family a) [
  | inl a6 ↦ ground (arith, addrtouse-v6 a a6)
  | inr (inl a4) ↦ ground arith
  | inr (inr ax) ↦ unfold addrtouse in ground arith
]

-- What two well-formed addresses hash to is the same when they are equal, as a hash table wants it.
pub hash_of_equal :
    (hashseed : ℕ) (a b : NetAddr)
    → IsWellFormed a
    → IsWellFormed b
    → equal a b ≡ true
    → hash hashseed a ≡ hash hashseed b
hash_of_equal hashseed a b wa wb h =
    hash-identity hashseed a
    ∙ ap (hash_identity hashseed) ((equal-identity_iff a b wa wb).0 h)
    ∙ sym (hash-identity hashseed b)

-- Well-formed addresses that equal a third one equal each other, across the families.
pub equal_trans :
    (a b c : NetAddr)
    → IsWellFormed a
    → IsWellFormed b
    → IsWellFormed c
    → equal a b ≡ true
    → equal c b ≡ true
    → equal a c ≡ true
equal_trans a b c wa wb wc h k =
    (equal-identity_iff a c wa wc).1
      ((equal-identity_iff a b wa wb).0 h ∙ sym ((equal-identity_iff c b wc wb).0 k))
