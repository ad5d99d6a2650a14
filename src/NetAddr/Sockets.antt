-- ===== src/NetAddr/Sockets.antt =====
-- clientlib/netaddr.c: what kind of address it is, and socket addresses. A port is in host order here,
-- since `htons` and `ntohs` cancel.
use assimilation_official.Common.{
  ℕ, Bool, false, not, ◌&&◌, ◌||◌, Option, none, some, List, [], ◌∷◌, ◌++◌, length, take, get_or,
  leb, ◌==◌, if◌then◌else◌,
}
use assimilation_official.NetAddr.{
  NetAddr, ipv4, ipv6, ipv4_new, ipv6_new, to_ipv4, same, same_bytes, v4prefix, v4anyaddr,
  v6anyaddr, ipv6loop,
}

-- `_netaddr_setport`
abbrev setport : NetAddr → ℕ → NetAddr
setport self port = record self { addrport = port }

-- `_netaddr_ismcast`
unfoldable ismcast : NetAddr → Bool
ismcast self =
    self.addrtype == ipv4
    && leb 224 (get_or self.addrbody 0 0)
    && leb (get_or self.addrbody 0 0) 239

-- `_netaddr_islocal`
unfoldable pub islocal : NetAddr → Bool
unfolding same
islocal self =
    if self.addrtype == ipv4
    then get_or self.addrbody 0 0 == 127
    else if self.addrtype == ipv6
    then same_bytes 16 self.addrbody ipv6loop
      || same_bytes 13 self.addrbody (v4prefix ++ (127 ∷ []))
    else false

-- `_netaddr_isanyaddr`. For an IPv4 address it compares 16 bytes, as many as `v4anyaddr` has;
-- `behind` is what lies behind the 4 bytes of the address in memory.
unfoldable pub isanyaddr : List ℕ → NetAddr → Bool
unfolding same
isanyaddr behind self =
    if self.addrtype == ipv4
    then same_bytes 16 (self.addrbody ++ behind) v4anyaddr
    else if self.addrtype == ipv6
    then same_bytes 16 self.addrbody v6anyaddr
      || same_bytes 16 self.addrbody (v4prefix ++ (0 ∷ 0 ∷ 0 ∷ 0 ∷ []))
    else false

-- `struct sockaddr_in6` or `struct sockaddr_in`.
pub record Sockaddr : Type 0 where
  pub family : ℕ
  pub port : ℕ
  pub addr : List ℕ

abbrev pub af_inet : ℕ
af_inet = 2

abbrev pub af_inet6 : ℕ
af_inet6 = 10

abbrev pub zeroed : ℕ → Sockaddr
zeroed size = record { family = 0; port = 0; addr = take size v6anyaddr }

-- `netaddr_sockaddr_new`: `none` is NULL.
unfoldable pub sockaddr_new : Sockaddr → Option NetAddr
sockaddr_new sa =
    if sa.family == af_inet
    then some (ipv4_new sa.addr sa.port)
    else if sa.family == af_inet6
    then some (ipv6_new sa.addr sa.port)
    else none

-- `_netaddr_ipv6sockaddr`
unfoldable pub ipv6sockaddr : NetAddr → Sockaddr
ipv6sockaddr self =
    if self.addrtype == ipv4
    then (if not (length self.addrbody == 4)
        then zeroed 16
        else record { family = af_inet6; port = self.addrport; addr = v4prefix ++ self.addrbody })
    else if self.addrtype == ipv6
    then (if not (length self.addrbody == 16)
        then zeroed 16
        else record { family = af_inet6; port = self.addrport; addr = self.addrbody })
    else zeroed 16

-- The branch of `_netaddr_ipv4sockaddr` for an IPv4 address, which it calls itself with.
abbrev pub v4_sockaddr : NetAddr → Sockaddr
v4_sockaddr self =
    if not (length self.addrbody == 4)
    then zeroed 4
    else record { family = af_inet; port = self.addrport; addr = take 4 self.addrbody }

-- `_netaddr_ipv4sockaddr`
unfoldable pub ipv4sockaddr : NetAddr → Sockaddr
unfolding to_ipv4
ipv4sockaddr self =
    if self.addrtype == ipv4
    then v4_sockaddr self
    else if self.addrtype == ipv6
    then elim (to_ipv4 self) [ none ↦ zeroed 4 | some v4addr ↦ v4_sockaddr v4addr ]
    else zeroed 4
