-- ===== src/Tlv/Bytes.antt =====
-- clientlib/tlvhelper.c: reading and writing integers in network byte order, with a bounds check.
-- A packet is the list of its bytes; a pointer into it is an offset, and `bufend` its length.
use assimilation_official.Common.{
  ℕ, suc, zero, ◌+◌, ◌*◌, ◌/◌, ◌%◌, List, [], ◌∷◌, ◌++◌, leb, ltb, if◌then◌else◌, length, set,
  get_or,
}

abbrev pub tlv_bad8 : ℕ
tlv_bad8 = 255

abbrev pub tlv_bad16 : ℕ
tlv_bad16 = 65535

abbrev pub tlv_bad24 : ℕ
tlv_bad24 = 16777215

abbrev pub tlv_bad32 : ℕ
tlv_bad32 = 4294967295

-- `memcpy` of `n` bytes at `vitem` into an integer and its conversion from network byte order.
unfoldable pub get_bytes : ℕ → List ℕ → ℕ → ℕ → ℕ
get_bytes zero buf vitem item = item
get_bytes (suc n) buf vitem item = get_bytes n buf (vitem + 1) (item * 256 + get_or buf vitem 0)

-- `memcpy` to `vitem`.
unfoldable pub set_bytes : List ℕ → List ℕ → ℕ → List ℕ
set_bytes [] buf vitem = buf
set_bytes (b ∷ bs) buf vitem = set_bytes bs (set buf vitem b) (vitem + 1)

-- The `n` bytes of an integer in network byte order.
unfoldable pub to_bytes : ℕ → ℕ → List ℕ
to_bytes zero item = []
to_bytes (suc n) item = to_bytes n (item / 256) ++ (item % 256 ∷ [])

-- `tlv_get_guint8`
unfoldable pub get_guint8 : List ℕ → ℕ → ℕ
get_guint8 buf vitem = if ltb vitem (length buf) then get_bytes 1 buf vitem 0 else tlv_bad8

-- `tlv_get_guint16`
unfoldable pub get_guint16 : List ℕ → ℕ → ℕ
get_guint16 buf vitem = if leb (vitem + 2) (length buf) then get_bytes 2 buf vitem 0 else tlv_bad16

-- `tlv_get_guint32`
unfoldable pub get_guint32 : List ℕ → ℕ → ℕ
get_guint32 buf vitem = if leb (vitem + 4) (length buf) then get_bytes 4 buf vitem 0 else tlv_bad32

-- `tlv_get_guint64`, which answers TLV_BAD24 when the integer is not inside of the buffer.
unfoldable pub get_guint64 : List ℕ → ℕ → ℕ
get_guint64 buf vitem = if leb (vitem + 8) (length buf) then get_bytes 8 buf vitem 0 else tlv_bad24

-- `tlv_get_guint24`: the first byte and a 16-bit integer.
unfoldable pub get_guint24 : List ℕ → ℕ → ℕ
get_guint24 buf vitem =
    if leb (vitem + 3) (length buf)
    then get_guint16 buf (vitem + 1) + get_bytes 1 buf vitem 0 * 65536 % 16777216
    else tlv_bad24

-- `tlv_set_guint8`
unfoldable pub set_guint8 : List ℕ → ℕ → ℕ → List ℕ
set_guint8 buf vitem item =
    if ltb vitem (length buf) then set_bytes (to_bytes 1 item) buf vitem else buf

-- `tlv_set_guint16`
unfoldable pub set_guint16 : List ℕ → ℕ → ℕ → List ℕ
set_guint16 buf vitem item =
    if leb (vitem + 2) (length buf) then set_bytes (to_bytes 2 item) buf vitem else buf

-- `tlv_set_guint32`
unfoldable pub set_guint32 : List ℕ → ℕ → ℕ → List ℕ
set_guint32 buf vitem item =
    if leb (vitem + 4) (length buf) then set_bytes (to_bytes 4 item) buf vitem else buf

-- `tlv_set_guint64`
unfoldable pub set_guint64 : List ℕ → ℕ → ℕ → List ℕ
set_guint64 buf vitem item =
    if leb (vitem + 8) (length buf) then set_bytes (to_bytes 8 item) buf vitem else buf

-- `tlv_set_guint24`: the first byte, then the others by `tlv_set_guint16`.
unfoldable pub set_guint24 : List ℕ → ℕ → ℕ → List ℕ
set_guint24 buf vitem item =
    if leb (vitem + 3) (length buf)
    then set_guint16 (set buf vitem (item / 65536 % 256)) (vitem + 1) (item % 65536)
    else buf
