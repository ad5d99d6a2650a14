-- ===== src/NetAddr/Mapped.antt =====
-- `_netaddr_toIPv6` (clientlib/netaddr.c) keeps an address equal to what it was.
use assimilation_official.Common.{ℕ, ◌≡◌, refl, inl, inr, true, some, List, arith, length}
use assimilation_official.NetAddr.{NetAddr, ipv4, ipv6, equal, is_ip, to_ipv6}
use assimilation_official.NetAddr.Canonical.{
  IsWellFormed, take_all, canonical_v4, v6_canonical, addrtouse-v4, addrtouse-v6, family,
}
use assimilation_official.NetAddr.Equal.{equal-identity_iff}

to_ipv6-v4 :
    (a : NetAddr)
    → IsWellFormed a
    → a.addrtype ≡ ipv4
    → to_ipv6 a
      ≡ some (record { addrtype = ipv6; addrport = a.addrport; addrbody = canonical_v4 a.addrbody })
unfolding to_ipv6
to_ipv6-v4 a w h = ground (arith, take_all 4 a.addrbody (w.0 h))

pub to_ipv6-v6 : (a : NetAddr) → IsWellFormed a → a.addrtype ≡ ipv6 → to_ipv6 a ≡ some a
unfolding to_ipv6
to_ipv6-v6 a w h = ground (arith, take_all 16 a.addrbody (w.1 h))

length-canonical_v4 : (four : List ℕ) → length four ≡ 4 → length (canonical_v4 four) ≡ 16
length-canonical_v4 four h = ground arith

-- An IPv4 or IPv6 address has an IPv6 form, which is well-formed and equals it: the protocol files
-- the connection under that form.
pub equal-to_ipv6 :
    (a : NetAddr)
    → IsWellFormed a
    → is_ip a ≡ true
    → (b : NetAddr) × (to_ipv6 a ≡ some b)
      × IsWellFormed b
      × (b.addrtype ≡ ipv6)
      × (equal a b ≡ true)
equal-to_ipv6 a w h = elim (family a) [
  | inl a6 ↦ (a, to_ipv6-v6 a w a6, w, a6, (equal-identity_iff a a w w).1 refl)
  | inr (inl a4) ↦
      let b : NetAddr = record {
        addrtype = ipv6;
        addrport = a.addrport;
        addrbody = canonical_v4 a.addrbody;
      } in
      let wb : IsWellFormed b = (ground arith, λ e. length-canonical_v4 a.addrbody (w.0 a4)) in
      (
        b,
        to_ipv6-v4 a w a4,
        wb,
        refl,
        (equal-identity_iff a b w wb).1 (
            ground
              (arith, addrtouse-v4 a w a4, addrtouse-v6 b refl, v6_canonical a.addrbody (w.0 a4))),
      )
  | inr (inr ax) ↦ absurd (ground arith)
]
