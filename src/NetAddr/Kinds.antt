-- ===== src/NetAddr/Kinds.antt =====
-- clientlib/netaddr.c: an address that went through a socket, and what kind of address it is.
use assimilation_official.Common.{
  ℕ, ◌≡◌, refl, ◌≢◌, ◌↔◌, ◌∙◌, sym, ap, inl, inr, true, false, some, List, [], ◌∷◌, ◌++◌, length,
  take, get_or, replicate, arith, ◌==◌, Bool-cases,
}
use assimilation_official.NetAddr.{
  NetAddr, ipv4, ipv6, is_ip, same, same_bytes, equal, v4prefix, ipv4loopversion2,
}
use assimilation_official.NetAddr.Canonical.{
  IsWellFormed, same_iff, take_all, identity, canonical_v4, canonical_v6, addrtouse-v4,
  addrtouse-v6, family,
}
use assimilation_official.NetAddr.Equal.{equal-identity_iff}
use assimilation_official.NetAddr.Sockets.{islocal, isanyaddr, sockaddr_new, ipv6sockaddr}

canonical-mapped :
    (body : List ℕ) → length body ≡ 4 → canonical_v6 (v4prefix ++ body) ≡ canonical_v4 body
unfolding same
canonical-mapped (f0 ∷ f1 ∷ f2 ∷ f3 ∷ []) h = refl
canonical-mapped body h = absurd (omega arith)

identity-v4 :
    (a : NetAddr)
    → IsWellFormed a
    → a.addrtype ≡ ipv4
    → identity a
      ≡ record { addrtype = ipv6; addrport = a.addrport; addrbody = canonical_v4 a.addrbody }
identity-v4 a w h = let ip : is_ip a ≡ true = ground (arith, h) in rw ip (addrtouse-v4 a w h)

identity-v6 :
    (a : NetAddr)
    → a.addrtype ≡ ipv6
    → identity a
      ≡ record { addrtype = ipv6; addrport = a.addrport; addrbody = canonical_v6 a.addrbody }
identity-v6 a h = let ip : is_ip a ≡ true = ground (arith, h) in rw ip (addrtouse-v6 a h)

abbrev mapped : NetAddr → NetAddr
mapped a = record { addrtype = ipv6; addrport = a.addrport; addrbody = v4prefix ++ a.addrbody }

equal-mapped :
    (a : NetAddr)
    → IsWellFormed a
    → IsWellFormed (mapped a)
    → a.addrtype ≡ ipv4
    → equal a (mapped a) ≡ true
equal-mapped a w wm h = (equal-identity_iff a (mapped a) w wm).1 (
    identity-v4 a w h
    ∙ ap (λ body. record { addrtype = ipv6; addrport = a.addrport; addrbody = body })
        (sym (canonical-mapped a.addrbody (w.0 h)))
    ∙ sym (identity-v6 (mapped a) refl))

-- A well-formed IPv4 or IPv6 address that becomes an IPv6 socket address and an address again is equal
-- to what it was, and well-formed: what comes back from a socket is known by the same key.
pub equal-sockaddr_new :
    (a : NetAddr)
    → IsWellFormed a
    → is_ip a ≡ true
    → (b : NetAddr) × (sockaddr_new (ipv6sockaddr a) ≡ some b) × IsWellFormed b × (equal a b ≡ true)
unfolding sockaddr_new ipv6sockaddr
equal-sockaddr_new a w h = elim (family a) [
  | inl a6 ↦
      let all : take 16 a.addrbody ≡ a.addrbody = take_all 16 a.addrbody (w.1 a6) in
      (a, ground (arith, a6, all, w.1 a6), w, (equal-identity_iff a a w w).1 refl)
  | inr (inl a4) ↦
      let size : length (v4prefix ++ a.addrbody) ≡ 16 = omega (arith, w.0 a4) in
      let all = take_all 16 (v4prefix ++ a.addrbody) size in
      (
        mapped a,
        ground (arith, a4, all, w.0 a4),
        (omega arith, λ e. size),
        equal-mapped a w (omega arith, λ e. size) a4,
      )
  | inr (inr n) ↦ ground (arith, n)
]

islocal_v4 :
    (body : List ℕ) (port : ℕ)
    → length body ≡ 4
    → islocal (record { addrtype = ipv6; addrport = port; addrbody = canonical_v4 body })
      ≡ (get_or body 0 0 == 127)
unfolding islocal same
islocal_v4 (f0 ∷ f1 ∷ f2 ∷ f3 ∷ []) port h = ground arith
islocal_v4 body port h = absurd (omega arith)

islocal_v6 :
    (six : List ℕ) (port : ℕ)
    → length six ≡ 16
    → islocal (record { addrtype = ipv6; addrport = port; addrbody = canonical_v6 six })
      ≡ islocal (record { addrtype = ipv6; addrport = port; addrbody = six })
unfolding islocal same
islocal_v6 six port h = elim (Bool-cases (same_bytes 16 six ipv4loopversion2)) [
  | inl x ↦
      let loop : six ≡ ipv4loopversion2 =
        sym (take_all 16 six h) ∙ (same_iff (take 16 six) ipv4loopversion2).0 x in
      rw loop refl
  | inr x ↦ rw x refl
]

not_local : (a : NetAddr) → a.addrtype ≢ ipv6 → a.addrtype ≢ ipv4 → islocal a ≡ false
unfolding islocal
not_local a n6 n4 = ground (arith, n6, n4)

identity_other :
    (a : NetAddr) → a.addrtype ≢ ipv6 → a.addrtype ≢ ipv4 → identity a ≡ record a { addrport = 0 }
identity_other a n6 n4 = let ip : is_ip a ≡ false = ground (arith, n6, n4) in rw ip refl

-- Being local depends on the canonical form only.
islocal-identity : (a : NetAddr) → IsWellFormed a → islocal (identity a) ≡ islocal a
unfolding islocal
islocal-identity a w = elim (family a) [
  | inl a6 ↦
      let first : islocal a
          ≡ islocal (record { addrtype = ipv6; addrport = a.addrport; addrbody = a.addrbody }) =
        ground (arith, a6) in
      ap islocal (identity-v6 a a6) ∙ islocal_v6 a.addrbody a.addrport (w.1 a6) ∙ sym first
  | inr (inl a4) ↦
      let first : islocal a ≡ (get_or a.addrbody 0 0 == 127) = ground (arith, a4) in
      ap islocal (identity-v4 a w a4) ∙ islocal_v4 a.addrbody a.addrport (w.0 a4) ∙ sym first
  | inr (inr n) ↦
      ap islocal (identity_other a n.0 n.1)
      ∙ not_local (record a { addrport = 0 }) n.0 n.1
      ∙ sym (not_local a n.0 n.1)
]

-- Well-formed addresses that are equal are local both or neither.
pub islocal_of_equal :
    (a b : NetAddr) → IsWellFormed a → IsWellFormed b → equal a b ≡ true → islocal a ≡ islocal b
islocal_of_equal a b wa wb e =
    sym (islocal-identity a wa)
    ∙ ap islocal ((equal-identity_iff a b wa wb).0 e)
    ∙ islocal-identity b wb

-- An IPv4 address of four bytes is taken for the "any" address exactly when it is 0.0.0.0 and the
-- twelve bytes that lie behind it in memory are 0 as well.
pub isanyaddr_iff :
    (body behind : List ℕ) (port : ℕ)
    → length body ≡ 4
    → (isanyaddr behind (record { addrtype = ipv4; addrport = port; addrbody = body }) ≡ true)
      ↔ ((body ≡ replicate 4 0) × (take 12 behind ≡ replicate 12 0))
unfolding isanyaddr
isanyaddr_iff (f0 ∷ f1 ∷ f2 ∷ f3 ∷ []) behind port h =
    ground (arith, same_iff (take 12 behind) (replicate 12 0))
isanyaddr_iff body behind port h = absurd (omega arith)
