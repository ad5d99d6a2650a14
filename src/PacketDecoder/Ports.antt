-- ===== src/PacketDecoder/Ports.antt =====
-- clientlib/ipportframe.c: frames of an IP address and a port.
use assimilation_official.Common.{
  ℕ, ◌+◌, ◌%◌, ◌^◌, ◌<◌, ◌≡◌, ◌⊎◌, refl, inl, inr, Bool, true, false, not, ◌&&◌, ◌||◌, ◌-◌, Option,
  none, some, List, ◌++◌, length, take, drop, arith, ltb, ◌==◌, if◌then◌else◌,
}
use assimilation_official.NetAddr.{NetAddr, ipv4, ipv6, is_ip}
use assimilation_official.NetAddr.Canonical.{IsWellFormed, take_all, family}
use assimilation_official.Tlv.Bytes.{get_guint16, get_bytes, to_bytes}
use assimilation_official.Tlv.Generic.{get_type, get_len, get_value}

abbrev tlvipv4size : ℕ
tlvipv4size = 8

abbrev tlvipv6size : ℕ
tlvipv6size = 20

-- `struct _IpPortFrame`, with the value of its frame.
pub record IpPortFrame : Type 0 where
  pub type : ℕ
  pub value : List ℕ
  pub port : ℕ
  pub addr : NetAddr

-- The checks of `_ipportframe_default_isvalid` on the value at `int16ptr` of a packet.
unfoldable pub is_valid_value : List ℕ → ℕ → Option ℕ → Bool
is_valid_value pkt pktsize int16ptr = elim int16ptr [
  | none ↦ false
  | some ptr ↦
      let address_family : ℕ = get_guint16 pkt (ptr + 2) in
      if ltb pktsize tlvipv4size
      then false
      else if get_guint16 pkt ptr == 0
      then false
      else if address_family == ipv4
      then pktsize == tlvipv4size
      else if address_family == ipv6
      then pktsize == tlvipv6size
      else false
]

-- `_ipportframe_default_isvalid`: without an entry of a packet, the frame's own value is looked at.
unfoldable pub isvalid : IpPortFrame → Option (List ℕ × ℕ) → Bool
unfolding is_valid_value
isvalid self tlvptr = elim tlvptr [
  | none ↦ is_valid_value self.value (length self.value % 2 ^ 16) (some 0)
  | some tlv ↦ is_valid_value tlv.0 (get_len tlv.0 tlv.1 % 2 ^ 16) (get_value tlv.0 tlv.1)
]

-- `_ipportframe_setaddr` on a new frame.
unfoldable pub setaddr : ℕ → ℕ → ℕ → List ℕ → IpPortFrame
setaddr frame_type addrtype port addr = record {
  type = frame_type;
  value = to_bytes 2 port ++ (to_bytes 2 addrtype ++ addr);
  port = port;
  addr = record { addrtype = addrtype; addrport = port; addrbody = addr };
}

-- `ipportframe_ipv4_new` and `ipportframe_ipv6_new`: `none` is NULL.
abbrev pub ipportframe_ipv4_new : ℕ → ℕ → List ℕ → Option IpPortFrame
ipportframe_ipv4_new frame_type port addr =
    if port == 0 then none else some (setaddr frame_type ipv4 port (take 4 addr))

abbrev pub ipportframe_ipv6_new : ℕ → ℕ → List ℕ → Option IpPortFrame
ipportframe_ipv6_new frame_type port addr =
    if port == 0 then none else some (setaddr frame_type ipv6 port (take 16 addr))

-- `ipportframe_netaddr_new`
unfoldable pub ipportframe_netaddr_new : ℕ → NetAddr → Option IpPortFrame
ipportframe_netaddr_new frame_type addr =
    if addr.addrport == 0
    then none
    else if addr.addrtype == ipv4
    then ipportframe_ipv4_new frame_type addr.addrport addr.addrbody
    else if addr.addrtype == ipv6
    then ipportframe_ipv6_new frame_type addr.addrport addr.addrbody
    else none

abbrev tlvoverhead : ℕ
tlvoverhead = 4

-- `ipportframe_tlvconstructor`: `some none` is NULL, and `none` a read outside of the packet, as at
-- address 2 behind a null value.
unfoldable pub ipportframe_tlvconstructor : List ℕ → List ℕ → ℕ → Option (Option IpPortFrame)
ipportframe_tlvconstructor pkt behind tlv = elim (get_value pkt tlv) [
  | none ↦ none
  | some framevalue ↦
      let framelength : ℕ = get_len pkt tlv in
      let port : ℕ = get_guint16 pkt framevalue in
      let addr_family : ℕ = get_guint16 pkt (framevalue + 2) in
      let sized : Bool =
        addr_family == ipv4 && (framelength == tlvipv4size)
        || addr_family == ipv6 && (framelength == tlvipv6size) in
      let addr : List ℕ =
        take (framelength - tlvoverhead) (drop (framevalue + tlvoverhead) (pkt ++ behind)) in
      let ret : IpPortFrame = setaddr (get_type pkt tlv) addr_family port addr in
      if port == 0 || not sized
      then some none
      else if ltb (length pkt + length behind) (framevalue + framelength)
      then none
      else if isvalid ret (some (pkt, tlv))
      then some (some ret)
      else some none
]

frame_of :
    (frame_type : ℕ) (addr : NetAddr)
    → IsWellFormed addr
    → is_ip addr ≡ true
    → 0 < addr.addrport
    → ipportframe_netaddr_new frame_type addr
      ≡ some (setaddr frame_type addr.addrtype addr.addrport addr.addrbody)
unfolding ipportframe_netaddr_new
frame_of frame_type addr w h p = elim (family addr) [
  | inl a6 ↦ ground (arith, a6, p, take_all 16 addr.addrbody (w.1 a6))
  | inr (inl a4) ↦ ground (arith, a4, p, take_all 4 addr.addrbody (w.0 a4))
  | inr (inr n) ↦ ground (arith, n, h)
]

-- The port and the address family are read back from the value.
read_port :
    (port : ℕ) (rest : List ℕ) → port < 2 ^ 16 → get_guint16 (to_bytes 2 port ++ rest) 0 ≡ port
unfolding get_guint16 get_bytes to_bytes
read_port port rest q = ground arith

read_family :
    (port addrtype : ℕ) (rest : List ℕ)
    → addrtype < 2 ^ 16
    → get_guint16 (to_bytes 2 port ++ (to_bytes 2 addrtype ++ rest)) 2 ≡ addrtype
unfolding get_guint16 get_bytes to_bytes
read_family port addrtype rest q = ground arith

length-value :
    (port addrtype : ℕ) (body : List ℕ)
    → length (to_bytes 2 port ++ (to_bytes 2 addrtype ++ body)) ≡ length body + 4
unfolding to_bytes
length-value port addrtype body = omega arith

isvalid-setaddr :
    (frame_type addrtype port : ℕ) (body : List ℕ)
    → 0 < port
    → port < 2 ^ 16
    → ((addrtype ≡ ipv4) × (length body ≡ 4)) ⊎ ((addrtype ≡ ipv6) × (length body ≡ 16))
    → isvalid (setaddr frame_type addrtype port body) none ≡ true
unfolding isvalid setaddr is_valid_value
isvalid-setaddr frame_type addrtype port body p q h =
    let first = read_port port (to_bytes 2 addrtype ++ body) q in
    let second = read_family port addrtype body (omega (arith, h)) in
    ground (arith, h, first, second, length-value port addrtype body)

-- A well-formed IPv4 or IPv6 address with a port that is not 0 becomes a frame that is valid by its own
-- check, and has that address.
pub ipportframe_netaddr_new-valid :
    (frame_type : ℕ) (addr : NetAddr)
    → IsWellFormed addr
    → is_ip addr ≡ true
    → 0 < addr.addrport
    → addr.addrport < 2 ^ 16
    → (f : IpPortFrame) × (ipportframe_netaddr_new frame_type addr ≡ some f)
      × (f.addr ≡ addr)
      × (isvalid f none ≡ true)
unfolding setaddr
ipportframe_netaddr_new-valid frame_type addr w h p q =
    let sized : ((addr.addrtype ≡ ipv4) × (length addr.addrbody ≡ 4))
        ⊎ ((addr.addrtype ≡ ipv6) × (length addr.addrbody ≡ 16)) =
      elim (family addr) [
        | inl a6 ↦ inr (a6, w.1 a6)
        | inr (inl a4) ↦ inl (a4, w.0 a4)
        | inr (inr n) ↦ ground (arith, n, h)
      ] in
    (
      setaddr frame_type addr.addrtype addr.addrport addr.addrbody,
      frame_of frame_type addr w h p,
      refl,
      isvalid-setaddr frame_type addr.addrtype addr.addrport addr.addrbody p q sized,
    )
