-- ===== src/NetAddr.antt =====
-- clientlib/netaddr.c: network addresses, their conversion between IPv4 and IPv6, and the equality
-- and hash by which the protocol finds its connections.
pub mod Canonical
pub mod Equal
pub mod Mapped
pub mod Strings
pub mod Decimal
pub mod Scanning
pub mod Reading
pub mod Sockets
pub mod Kinds
use Prim.Native.Nat.{bit_xor, bit_or}
use assimilation_official.Common.{
  ℕ, ◌+◌, ◌*◌, ◌/◌, ◌%◌, ◌^◌, ◌≡◌, Bool, true, false, not, ◌&&◌, ◌||◌, Option, none, some, List, [],
  ◌∷◌, ◌++◌, length, take, drop, leb, ◌==◌, if◌then◌else◌,
}

-- The data members of `struct _NetAddr`; `_addrlen` is the length of the body.
pub record NetAddr : Type 0 where
  pub addrtype : ℕ
  pub addrport : ℕ
  pub addrbody : List ℕ

abbrev pub ipv4 : ℕ
ipv4 = 1

abbrev pub ipv6 : ℕ
ipv6 = 2

abbrev pub ipv6loop : List ℕ
ipv6loop = 0 ∷ 0 ∷ 0 ∷ 0 ∷ 0 ∷ 0 ∷ 0 ∷ 0 ∷ 0 ∷ 0 ∷ 0 ∷ 0 ∷ 0 ∷ 0 ∷ 0 ∷ 1 ∷ []

abbrev pub v4prefix : List ℕ
v4prefix = 0 ∷ 0 ∷ 0 ∷ 0 ∷ 0 ∷ 0 ∷ 0 ∷ 0 ∷ 0 ∷ 0 ∷ 0xff ∷ 0xff ∷ []

abbrev pub ipv4loop : List ℕ
ipv4loop = 127 ∷ 0 ∷ 0 ∷ 1 ∷ []

abbrev pub ipv4loopversion2 : List ℕ
ipv4loopversion2 = v4prefix ++ ipv4loop

abbrev pub v6anyaddr : List ℕ
v6anyaddr = 0 ∷ 0 ∷ 0 ∷ 0 ∷ 0 ∷ 0 ∷ 0 ∷ 0 ∷ 0 ∷ 0 ∷ 0 ∷ 0 ∷ 0 ∷ 0 ∷ 0 ∷ 0 ∷ []

abbrev pub v4anyaddr : List ℕ
v4anyaddr = 0 ∷ 0 ∷ 0 ∷ 0 ∷ 0 ∷ 0 ∷ 0 ∷ 0 ∷ 0 ∷ 0 ∷ 0 ∷ 0 ∷ 0 ∷ 0 ∷ 0 ∷ 0 ∷ []

-- `memcmp(…) == 0` over two whole arrays of bytes.
unfoldable pub same : List ℕ → List ℕ → Bool
same [] [] = true
same [] (y ∷ ys) = false
same (x ∷ xs) [] = false
same (x ∷ xs) (y ∷ ys) = x == y && same xs ys

-- `memcmp(a, b, n) == 0`
abbrev pub same_bytes : ℕ → List ℕ → List ℕ → Bool
same_bytes n a b = same (take n a) (take n b)

-- `netaddr_ipv6_new` and `netaddr_ipv4_new` copy 16 and 4 bytes.
abbrev pub ipv6_new : List ℕ → ℕ → NetAddr
ipv6_new body port = record { addrtype = ipv6; addrport = port; addrbody = take 16 body }

abbrev pub ipv4_new : List ℕ → ℕ → NetAddr
ipv4_new body port = record { addrtype = ipv4; addrport = port; addrbody = take 4 body }

-- `_netaddr_toIPv6`: `none` is its NULL for an address of another family.
unfoldable pub to_ipv6 : NetAddr → Option NetAddr
unfolding same
to_ipv6 self =
    if self.addrtype == ipv6
    then some (ipv6_new self.addrbody self.addrport)
    else if self.addrtype == ipv4
    then some (
        ipv6_new
          (if same_bytes 4 self.addrbody ipv4loop
            then ipv6loop
            else v4prefix ++ take 4 self.addrbody)
          self.addrport)
    else none

-- `_netaddr_toIPv4`
unfoldable pub to_ipv4 : NetAddr → Option NetAddr
unfolding same
to_ipv4 self =
    if self.addrtype == ipv4
    then some (ipv4_new self.addrbody self.addrport)
    else if not (self.addrtype == ipv6)
    then none
    else if same_bytes 12 self.addrbody v4prefix
    then some (ipv4_new (drop 12 self.addrbody) self.addrport)
    else if same_bytes 16 self.addrbody ipv6loop
    then some (ipv4_new ipv4loop self.addrport)
    else if same_bytes 16 self.addrbody v6anyaddr
    then some (ipv4_new v4anyaddr self.addrport)
    else none

abbrev pub is_ip : NetAddr → Bool
is_ip self = self.addrtype == ipv6 || self.addrtype == ipv4

-- The branch of `_netaddr_equal` for an IPv6 and an IPv4 address.
pub equal_v6_v4 : List ℕ → List ℕ → Bool
equal_v6_v4 six four =
    same_bytes 12 six v4prefix && same_bytes 4 (drop 12 six) four
    || same_bytes 16 six ipv6loop && same_bytes 4 four ipv4loop

-- The two forms of the loopback address, in the branch for two IPv6 addresses.
pub both_loopbacks : List ℕ → List ℕ → Bool
both_loopbacks a b =
    if same_bytes 16 a ipv6loop
    then same_bytes 16 b ipv4loopversion2
    else same_bytes 16 a ipv4loopversion2 && same_bytes 16 b ipv6loop

-- `_netaddr_equal`
unfoldable pub equal : NetAddr → NetAddr → Bool
unfolding equal_v6_v4 both_loopbacks
equal self other =
    if is_ip self && is_ip other && not (self.addrport == other.addrport)
    then false
    else if self.addrtype == ipv6 && other.addrtype == ipv4
    then equal_v6_v4 self.addrbody other.addrbody
    else if self.addrtype == ipv6
        && other.addrtype == ipv6
        && both_loopbacks self.addrbody other.addrbody
    then true
    else if self.addrtype == ipv4 && other.addrtype == ipv6
    then equal_v6_v4 other.addrbody self.addrbody
    else if not (self.addrtype == other.addrtype)
        || not (length self.addrbody == length other.addrbody)
    then false
    else same self.addrbody other.addrbody

-- `addrtouse` of `_netaddr_hash`: the address whose bytes are hashed.
pub addrtouse : NetAddr → NetAddr
addrtouse self =
    if self.addrtype == ipv4
    then (if same_bytes 4 self.addrbody ipv4loop
        then ipv6_new ipv6loop self.addrport
        else ipv6_new (v4prefix ++ take 4 self.addrbody) self.addrport)
    else if self.addrtype == ipv6 && same_bytes 16 self.addrbody ipv4loopversion2
    then ipv6_new ipv6loop self.addrport
    else self

-- The loop of `_netaddr_hash`: a circular shift by 7 of a guint, and the byte.
pub hash_bytes : ℕ → List ℕ → ℕ
hash_bytes result [] = result
hash_bytes result (b ∷ rest) =
    hash_bytes (bit_xor (bit_or (result * 2 ^ 7 % 2 ^ 32) (result / 2 ^ 25)) b) rest

-- `_netaddr_hash`, for the process's random seed.
pub hash : ℕ → NetAddr → ℕ
unfolding addrtouse hash_bytes
hash hashseed self =
    let used : NetAddr = addrtouse self in
    let start : ℕ = bit_xor used.addrtype hashseed in
    hash_bytes (if is_ip used then bit_xor start used.addrport else start) used.addrbody
