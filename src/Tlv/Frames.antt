-- ===== src/Tlv/Frames.antt =====
-- The integers in frames: `_seqnoframe_updatedata` and `seqnoframe_tlvconstructor` of
-- clientlib/seqnoframe.c, and the like of clientlib/intframe.c. The frame is written behind the
-- header that `frame_append_to_frameset_packet` of clientlib/frameset.c has put into the packet.
use assimilation_official.Common.{
  ℕ, ◌+◌, ◌%◌, ◌^◌, Bool, true, ◌&&◌, ◌||◌, Option, none, some, List, length, leb, ◌==◌,
  if◌then◌else◌,
}
use assimilation_official.Seqno.{Seqno}
use assimilation_official.Tlv.Bytes.{
  get_guint8, get_guint16, get_guint24, get_guint32, get_guint64, set_guint8, set_guint16,
  set_guint24, set_guint32, set_guint64, tlv_bad8, tlv_bad16, tlv_bad24, tlv_bad32,
}
use assimilation_official.Tlv.Generic.{get_type, get_len, get_value, get_nonconst_value}

-- A frame's header: its type, and its length in three bytes.
unfoldable pub append_header : List ℕ → ℕ → ℕ → ℕ → List ℕ
append_header pkt curpos type length = set_guint24 (set_guint16 pkt curpos type) (curpos + 2) length

-- Four, eight and two bytes.
abbrev pub seqno_size : ℕ
seqno_size = 14

-- `_seqnoframe_updatedata`
unfoldable pub seqno_updatedata : Seqno → List ℕ → ℕ → List ℕ
seqno_updatedata self pkt tlv = elim (get_nonconst_value pkt tlv) [
  | none ↦ pkt
  | some pktpos ↦
      let pkt1 : List ℕ = set_guint32 pkt pktpos self.sessionid in
      let pkt2 : List ℕ = set_guint64 pkt1 (pktpos + 4) self.reqid in
      set_guint16 pkt2 (pktpos + 4 + 8) self.qid
]

-- `seqnoframe_tlvconstructor`, whose `length` is a guint16. Where it returns NULL, or reads through
-- the null pointer that `get_generic_tlv_value` gave it, the result is `none`.
unfoldable pub seqno_tlvconstructor : List ℕ → ℕ → Option Seqno
seqno_tlvconstructor pkt tlv =
    if get_len pkt tlv % 2 ^ 16 == seqno_size
    then elim (get_value pkt tlv) [
      | none ↦ none
      | some valpos ↦ some (record {
        sessionid = get_guint32 pkt valpos;
        reqid = get_guint64 pkt (valpos + 4);
        qid = get_guint16 pkt (valpos + 4 + 8);
      })
    ]
    else none

-- `struct _IntFrame` with the fields of its base class that are used.
pub record IntFrame : Type 0 where
  pub type : ℕ
  pub length : ℕ
  pub value : ℕ

-- The lengths that `intframe_new` and `_intframe_isvalid` allow.
unfoldable pub is_intlength : ℕ → Bool
is_intlength n = n == 1 || n == 2 || n == 3 || n == 4 || n == 8

-- `_intframe_setint`: a value over the limit is refused.
unfoldable pub setint : IntFrame → ℕ → IntFrame
setint self value =
    let limit : ℕ =
      if self.length == 1
      then 255
      else if self.length == 2
      then 65535
      else if self.length == 3
      then 16777215
      else if self.length == 4
      then 4294967295
      else if self.length == 8
      then 18446744073709551615
      else 0 in
    if leb value limit then record self { value = value } else self

-- The switch of `_intframe_updatedata`.
unfoldable pub int_put : IntFrame → List ℕ → ℕ → List ℕ
int_put self pkt pktpos =
    if self.length == 1
    then set_guint8 pkt pktpos self.value
    else if self.length == 2
    then set_guint16 pkt pktpos self.value
    else if self.length == 3
    then set_guint24 pkt pktpos self.value
    else if self.length == 4
    then set_guint32 pkt pktpos self.value
    else if self.length == 8
    then set_guint64 pkt pktpos self.value
    else pkt

-- `_intframe_updatedata`
unfoldable pub int_updatedata : IntFrame → List ℕ → ℕ → List ℕ
int_updatedata self pkt tlv = elim (get_nonconst_value pkt tlv) [
  | none ↦ pkt
  | some pktpos ↦ int_put self pkt pktpos
]

-- The switch of `intframe_tlvconstructor`.
unfoldable pub int_value : List ℕ → ℕ → ℕ → ℕ
int_value pkt framevalue framelength =
    if framelength == 1
    then get_guint8 pkt framevalue
    else if framelength == 2
    then get_guint16 pkt framevalue
    else if framelength == 3
    then get_guint24 pkt framevalue
    else if framelength == 4
    then get_guint32 pkt framevalue
    else get_guint64 pkt framevalue

-- What the getters answer for a null pointer.
unfoldable pub bad_value : ℕ → ℕ
bad_value framelength =
    if framelength == 1
    then tlv_bad8
    else if framelength == 2
    then tlv_bad16
    else if framelength == 4
    then tlv_bad32
    else tlv_bad24

-- `intframe_tlvconstructor`, whose `framelength` is a guint16.
unfoldable pub int_tlvconstructor : List ℕ → ℕ → Option IntFrame
int_tlvconstructor pkt tlv =
    let framelength : ℕ = get_len pkt tlv % 2 ^ 16 in
    let ret : IntFrame = record { type = get_type pkt tlv; length = framelength; value = 0 } in
    if is_intlength framelength
    then some (
        setint ret (elim (get_value pkt tlv) [
          | none ↦ bad_value framelength
          | some framevalue ↦ int_value pkt framevalue framelength
        ]))
    else none

-- `_intframe_isvalid`: `tlv` is `none` where the frame is not in a packet.
unfoldable int_isvalid : IntFrame → List ℕ → Option ℕ → Bool
int_isvalid self pkt tlv =
    let same : Bool = elim tlv [ none ↦ true | some at ↦ get_len pkt at == self.length ] in
    same && is_intlength self.length
