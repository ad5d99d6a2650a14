-- ===== src/Tlv/Generic.antt =====
-- clientlib/generic_tlv_min.c: type-length-value entries. A pointer is an offset into the packet,
-- and NULL (TLV_BADPTR) is `none`.
use assimilation_official.Common.{
  ℕ, suc, zero, ◌+◌, Bool, true, false, not, ◌&&◌, Option, none, some, List, length, leb, ltb, ◌==◌,
  if◌then◌else◌,
}
use assimilation_official.Tlv.Bytes.{
  get_guint16, get_guint24, set_guint16, set_guint24, set_bytes, tlv_bad24,
}

abbrev pub generictlv_hdrsz : ℕ
generictlv_hdrsz = 5

abbrev frametype_end : ℕ
frametype_end = 0

abbrev pub frametype_sig : ℕ
frametype_sig = 1

-- `get_generic_tlv_type`
unfoldable pub get_type : List ℕ → ℕ → ℕ
get_type pkt tlv = get_guint16 pkt tlv

-- `set_generic_tlv_type`
unfoldable set_type : List ℕ → ℕ → ℕ → List ℕ
set_type pkt tlv newtype = set_guint16 pkt tlv newtype

-- `get_generic_tlv_len`
unfoldable pub get_len : List ℕ → ℕ → ℕ
get_len pkt tlv =
    let tainted_len : ℕ = get_guint24 pkt (tlv + 2) in
    if leb (tlv + tainted_len) (length pkt) then tainted_len else tlv_bad24

-- `set_generic_tlv_len`
unfoldable set_len : List ℕ → ℕ → ℕ → List ℕ
set_len pkt tlv newsize = set_guint24 pkt (tlv + 2) newsize

-- `get_generic_tlv_value`
unfoldable pub get_value : List ℕ → ℕ → Option ℕ
get_value pkt tlv =
    let ret : ℕ = tlv + generictlv_hdrsz in
    if ret == length pkt
    then (if get_len pkt tlv == 0 then some ret else none)
    else if ltb ret (length pkt)
    then some ret
    else none

-- `get_generic_tlv_nonconst_value`
unfoldable pub get_nonconst_value : List ℕ → ℕ → Option ℕ
get_nonconst_value pkt tlv =
    if ltb (tlv + generictlv_hdrsz) (length pkt) then some (tlv + generictlv_hdrsz) else none

-- `set_generic_tlv_value`: `none` is a write past the end of the packet.
unfoldable set_value : List ℕ → ℕ → List ℕ → Option (List ℕ)
set_value pkt tlv srcdata =
    if leb (tlv + length srcdata) (length pkt) && (length srcdata == get_len pkt tlv)
    then (if leb (tlv + generictlv_hdrsz + length srcdata) (length pkt)
        then some (set_bytes srcdata pkt (tlv + generictlv_hdrsz))
        else none)
    else some pkt

-- The position after an entry.
abbrev pub entry_end : List ℕ → ℕ → ℕ
entry_end pkt tlv = tlv + generictlv_hdrsz + get_len pkt tlv

-- `get_generic_tlv_first`, on the whole packet.
unfoldable pub first : List ℕ → Option ℕ
first pkt =
    if ltb (length pkt) generictlv_hdrsz
    then none
    else if ltb (length pkt) (entry_end pkt 0)
    then none
    else some 0

-- `get_generic_tlv_next`
unfoldable pub next : List ℕ → ℕ → Option ℕ
next pkt tlv =
    let nexttlv : ℕ = entry_end pkt tlv in
    if ltb (length pkt) (tlv + generictlv_hdrsz)
    then none
    else if get_type pkt tlv == frametype_end
    then none
    else if ltb (length pkt) (entry_end pkt nexttlv)
    then none
    else some nexttlv

-- The loop of `find_next_generic_tlv_type`, on fuel: `none` is out of fuel, `some none` is NULL.
unfoldable pub find_loop : ℕ → List ℕ → Option ℕ → ℕ → Option (Option ℕ)
find_loop zero pkt tlv tlvtype = none
find_loop (suc fuel) pkt none tlvtype = some none
find_loop (suc fuel) pkt (some tlv) tlvtype =
    let more = find_loop fuel pkt (next pkt tlv) tlvtype in
    if leb (tlv + generictlv_hdrsz) (length pkt)
    then (if get_type pkt tlv == tlvtype then some (some tlv) else more)
    else some none

-- `find_next_generic_tlv_type`: an entry has five bytes at least.
unfoldable pub find_next : List ℕ → Option ℕ → ℕ → Option (Option ℕ)
find_next pkt tlv tlvtype = find_loop (suc (suc (length pkt))) pkt tlv tlvtype

-- The loop of `is_valid_generic_tlv_packet`, on fuel. `j` counts the entries seen; the first must be
-- of type SIG.
unfoldable pub valid_loop : ℕ → List ℕ → ℕ → ℕ → Option Bool
valid_loop zero pkt j tlv = none
valid_loop (suc fuel) pkt j tlv =
    let after : ℕ = entry_end pkt tlv in
    let more = valid_loop fuel pkt (j + 1) after in
    if ltb tlv (length pkt)
    then (if ltb (length pkt) after
        then some false
        else if ltb j 1 && not (get_type pkt tlv == frametype_sig)
        then some false
        else more)
    else some true

-- `is_valid_generic_tlv_packet`: where `get_generic_tlv_first` finds no entry the loop is not entered.
unfoldable pub is_valid : List ℕ → Option Bool
is_valid pkt =
    if ltb (length pkt) generictlv_hdrsz
    then some false
    else elim (first pkt) [ none ↦ some true | some tlv ↦ valid_loop (suc (length pkt)) pkt 0 tlv ]
