-- ===== src/NetAddr/Canonical.antt =====
-- The canonical form under which clientlib/netaddr.c compares and hashes an address.
use assimilation_official.Common.{
  ℕ, suc, zero, ◌≡◌, refl, ◌⊎◌, inl, inr, ◌≢◌, ◌↔◌, true, List, [], ◌∷◌, ◌++◌, arith, length, take,
  drop, if◌then◌else◌, ◌∙◌, sym, take-append-drop, length-drop, and_iff, or_iff, ◌&&◌, ◌||◌,
}
use native.Mathlib.Decide.{ℕ_discrete}
use mathlib.Core.Path.{ap₂}
use assimilation_official.NetAddr.{
  same_bytes, NetAddr, ipv4, ipv6, same, equal_v6_v4, both_loopbacks, addrtouse, ipv6loop, ipv4loop,
  v4prefix, ipv4loopversion2, is_ip,
}

-- IPv4 and IPv6 addresses have bodies of their sizes.
abbrev pub IsWellFormed : NetAddr → Type 0
IsWellFormed a =
    (a.addrtype ≡ ipv4 → length a.addrbody ≡ 4) × (a.addrtype ≡ ipv6 → length a.addrbody ≡ 16)

pub same_iff : (a b : List ℕ) → (same a b ≡ true) ↔ (a ≡ b)
unfolding same
same_iff [] [] = ground arith
same_iff [] (y ∷ ys) = ground arith
same_iff (x ∷ xs) [] = ground arith
same_iff (x ∷ xs) (y ∷ ys) = ground (arith, same_iff xs ys)

pub take_all : (n : ℕ) (a : List ℕ) → length a ≡ n → take n a ≡ a
take_all zero [] h = refl
take_all zero (x ∷ a) h = absurd (omega arith)
take_all (suc n) [] h = absurd (omega arith)
take_all (suc n) (x ∷ a) h = rw (take_all n a (omega arith))

same_bytes_iff :
    (n : ℕ) (a b : List ℕ) → length a ≡ n → length b ≡ n → (same_bytes n a b ≡ true) ↔ (a ≡ b)
same_bytes_iff n a b ha hb = rw (take_all n a ha, take_all n b hb) (same_iff a b)

mapped_iff :
    (six four : List ℕ)
    → length six ≡ 16
    → length four ≡ 4
    → ((same_bytes 12 six v4prefix && same_bytes 4 (drop 12 six) four) ≡ true)
      ↔ (six ≡ v4prefix ++ four)
mapped_iff six four h6 h4 =
    let tests =
      and_iff _ _ (same_iff (take 12 six) v4prefix)
        (same_bytes_iff 4 (drop 12 six) four (omega (arith, length-drop 12 six)) h4) in
    (
      λ h. sym (take-append-drop 12 six) ∙ ap₂ ◌++◌ (tests.0 h).0 (tests.0 h).1,
      λ e. tests.1 (rw e (refl, refl)),
    )

-- A body of 16 bytes is the IPv4-mapped form of a body of 4, or both are the loopback.
equal_v6_v4_iff :
    (six four : List ℕ)
    → length six ≡ 16
    → length four ≡ 4
    → (equal_v6_v4 six four ≡ true)
      ↔ ((six ≡ v4prefix ++ four) ⊎ ((six ≡ ipv6loop) × (four ≡ ipv4loop)))
unfolding equal_v6_v4
equal_v6_v4_iff six four h6 h4 =
    or_iff _ _ (mapped_iff six four h6 h4) (
      and_iff _ _ (same_bytes_iff 16 six ipv6loop h6 refl) (same_bytes_iff 4 four ipv4loop h4 refl))

-- The IPv6 body under which an address is known: mapped, and with one form of the loopback.
abbrev pub canonical_v6 : List ℕ → List ℕ
canonical_v6 six = if same_bytes 16 six ipv4loopversion2 then ipv6loop else six

abbrev pub canonical_v4 : List ℕ → List ℕ
canonical_v4 four = if same_bytes 4 four ipv4loop then ipv6loop else v4prefix ++ four

pub v6_v4 :
    (six four : List ℕ)
    → length six ≡ 16
    → length four ≡ 4
    → (equal_v6_v4 six four ≡ true) ↔ (canonical_v6 six ≡ canonical_v4 four)
v6_v4 six four h6 h4 = ground (
  arith,
  equal_v6_v4_iff six four h6 h4,
  same_bytes_iff 16 six ipv4loopversion2 h6 refl,
  same_bytes_iff 4 four ipv4loop h4 refl,
)

pub v6_v6 :
    (a b : List ℕ)
    → length a ≡ 16
    → length b ≡ 16
    → ((both_loopbacks a b || same a b) ≡ true) ↔ (canonical_v6 a ≡ canonical_v6 b)
unfolding both_loopbacks
v6_v6 a b ha hb = ground (
  arith,
  same_bytes_iff 16 a ipv4loopversion2 ha refl,
  same_bytes_iff 16 b ipv4loopversion2 hb refl,
  same_bytes_iff 16 a ipv6loop ha refl,
  same_bytes_iff 16 b ipv6loop hb refl,
  same_iff a b,
)

pub v6_canonical :
    (four : List ℕ) → length four ≡ 4 → canonical_v6 (canonical_v4 four) ≡ canonical_v4 four
v6_canonical four h = ground (
  arith,
  same_bytes_iff 4 four ipv4loop h refl,
  same_bytes_iff 16 (v4prefix ++ four) ipv4loopversion2 (omega arith) refl,
  same_bytes_iff 16 ipv6loop ipv4loopversion2 refl refl,
)

pub v4_v4 :
    (a b : List ℕ)
    → length a ≡ 4
    → length b ≡ 4
    → (same a b ≡ true) ↔ (canonical_v4 a ≡ canonical_v4 b)
v4_v4 a b ha hb =
    ground (
      arith,
      same_bytes_iff 4 a ipv4loop ha refl,
      same_bytes_iff 4 b ipv4loop hb refl,
      same_iff a b,
    )

-- What an address is known by: its IPv6 form and port, and for another family its type and body.
abbrev pub identity : NetAddr → NetAddr
identity a = if is_ip a then addrtouse a else record a { addrport = 0 }

-- `addrtouse`, on a well-formed address.
pub addrtouse-v4 :
    (a : NetAddr)
    → IsWellFormed a
    → a.addrtype ≡ ipv4
    → addrtouse a
      ≡ record { addrtype = ipv6; addrport = a.addrport; addrbody = canonical_v4 a.addrbody }
unfolding addrtouse
addrtouse-v4 a w h = ground (arith, take_all 4 a.addrbody, take_all 4 a.addrbody (w.0 h))

pub addrtouse-v6 :
    (a : NetAddr)
    → a.addrtype ≡ ipv6
    → addrtouse a
      ≡ record { addrtype = ipv6; addrport = a.addrport; addrbody = canonical_v6 a.addrbody }
unfolding addrtouse
addrtouse-v6 a h = ground arith

pub family :
    (a : NetAddr)
    → (a.addrtype ≡ ipv6) ⊎ (a.addrtype ≡ ipv4) ⊎ ((a.addrtype ≢ ipv6) × (a.addrtype ≢ ipv4))
family a = elim (ℕ_discrete a.addrtype ipv6) [
  | yes h ↦ inl h
  | no h ↦ elim (ℕ_discrete a.addrtype ipv4) [ yes k ↦ inr (inl k) | no k ↦ inr (inr (h, k)) ]
]
