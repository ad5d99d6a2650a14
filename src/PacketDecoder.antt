-- ===== src/PacketDecoder.antt =====
-- clientlib/packetdecoder.c: datagrams as framesets, with the constructors of plain frames
-- (clientlib/frame.c, clientlib/unknownframe.c) and of signature frames (clientlib/signframe.c). A
-- pointer is an offset into the packet, and an end inside of it a prefix of the packet.
pub mod Framesets
pub mod Constructors
pub mod Several
pub mod Signed
pub mod Checksum
pub mod Total
pub mod Ports
use assimilation_official.Common.{
  ℕ, zero, suc, ◌+◌, ◌-◌, Bool, true, false, not, ◌&&◌, ◌||◌, Option, none, some, List, [], ◌∷◌,
  ◌++◌, length, take, drop, get_or, set, replicate, leb, ltb, ◌==◌, if◌then◌else◌,
}
use assimilation_official.Tlv.Bytes.{get_guint8, get_guint16, tlv_bad16, tlv_bad24}
use assimilation_official.Tlv.Generic.{
  generictlv_hdrsz, frametype_sig, get_type, get_len, get_value, is_valid,
}

-- A decoded frame: its type, its length, and its value; `none` is a null value.
pub record Frame : Type 0 where
  pub type : ℕ
  pub length : ℕ
  pub value : Option (List ℕ)

-- The result of a constructor: the frame, whether it is a SignFrame, and the packet that replaces the
-- rest of the one at hand, if there is one.
pub record Built : Type 0 where
  pub frame : Frame
  pub is_sign : Bool
  pub newpacket : Option (List ℕ)

-- `FramePktConstructor`, for a packet up to the end that it is given and the bytes of the packet behind
-- that end: `some none` is a null frame, and `none` a read outside of the packet.
abbrev pub Constructor : Type 0
Constructor = List ℕ → List ℕ → ℕ → Option (Option Built)

-- `g_memdup` of `n` bytes at `at`; there is no copy of 0 bytes. `none` is a read past the last of the
-- bytes in the packet.
unfoldable pub memdup : List ℕ → List ℕ → ℕ → ℕ → Option (Option (List ℕ))
memdup pkt behind at n =
    if n == 0
    then some none
    else if leb (at + n) (length pkt + length behind)
    then some (some (take n (drop at (pkt ++ behind))))
    else none

-- The copy of the value of an entry; there is none of a null value.
unfoldable pub value_at : List ℕ → List ℕ → ℕ → ℕ → Option (Option (List ℕ))
value_at pkt behind tlv framelength = elim (get_value pkt tlv) [
  | none ↦ some none
  | some valpos ↦ memdup pkt behind valpos framelength
]

abbrev pub plain : ℕ → ℕ → Option (List ℕ) → Built
plain type framelength value = record {
  frame = record { type = type; length = framelength; value = value };
  is_sign = false;
  newpacket = none;
}

-- `frame_tlvconstructor`
unfoldable pub frame_tlvconstructor : Constructor
frame_tlvconstructor pkt behind tlv =
    let frametype : ℕ = get_type pkt tlv in
    let framelength : ℕ = get_len pkt tlv in
    if frametype == tlv_bad16 || framelength == tlv_bad24
    then some none
    else elim (value_at pkt behind tlv framelength) [
      | none ↦ none
      | some framevalue ↦ some (some (plain frametype framelength framevalue))
    ]

-- `unknownframe_tlvconstructor`: it copies a value of any length, TLV_BAD24 too.
unfoldable pub unknownframe_tlvconstructor : Constructor
unknownframe_tlvconstructor pkt behind tlv =
    let framelength : ℕ = get_len pkt tlv in
    elim (value_at pkt behind tlv framelength) [
      | none ↦ none
      | some framevalue ↦ some (some (plain (get_type pkt tlv) framelength framevalue))
    ]

abbrev signtype_glib : ℕ
signtype_glib = 1

-- `signframe_tlvconstructor`, without libsodium. The checksum in the packet is not looked at,
-- and behind a null value the byte at address 1 is; `checksum_length` is `g_checksum_type_get_length`.
unfoldable pub signframe_tlvconstructor : (ℕ → ℕ) → Constructor
signframe_tlvconstructor checksum_length pkt behind tlv =
    let framelength : ℕ = get_len pkt tlv in
    if not (ltb 2 framelength) then some none else elim (get_value pkt tlv) [
      | none ↦ none
      | some framevalue ↦
          if get_guint8 pkt framevalue == signtype_glib
            && ltb 1 (checksum_length (get_guint8 pkt (framevalue + 1)))
          then some (
              some (record {
                frame = record { type = frametype_sig; length = framelength; value = none };
                is_sign = true;
                newpacket = none;
              }))
          else some none
    ]

-- `FrameTypeToFrame`, and `struct _PacketDecoder` with its table.
pub record FrameTypeToFrame : Type 0 where
  pub frametype : ℕ
  pub constructor : Constructor

pub record PacketDecoder : Type 0 where
  pub maxframetype : ℕ
  pub frametypemap : List Constructor

unfoldable pub max_frametype : List FrameTypeToFrame → ℕ → ℕ
max_frametype [] max = max
max_frametype (entry ∷ rest) max =
    max_frametype rest (if ltb max entry.frametype then entry.frametype else max)

unfoldable pub fill_map : List FrameTypeToFrame → List Constructor → List Constructor
fill_map [] table = table
fill_map (entry ∷ rest) table = fill_map rest (set table entry.frametype entry.constructor)

-- `packetdecoder_new`
unfoldable pub packetdecoder_new : List FrameTypeToFrame → PacketDecoder
packetdecoder_new framemap =
    let max : ℕ = max_frametype framemap 0 in
    record {
      maxframetype = max;
      frametypemap = fill_map framemap (replicate (max + 1) unknownframe_tlvconstructor);
    }

-- The constructor for a frame type, by `_decode_packet_framedata_to_frameobject`.
unfoldable pub constructor_of : PacketDecoder → ℕ → Constructor
constructor_of self frametype =
    if leb frametype self.maxframetype
    then get_or self.frametypemap frametype unknownframe_tlvconstructor
    else unknownframe_tlvconstructor

-- A place in a packet that ends at `fsend`.
pub record Place : Type 0 where
  pub packet : List ℕ
  pub curframe : ℕ
  pub fsend : ℕ

-- `_decode_packet_framedata_to_frameobject`: the frame and the place after it, and `none` as with
-- constructors.
unfoldable pub decode_frame : PacketDecoder → Place → Option (Option (Built × Place))
decode_frame self at =
    let view : List ℕ = take at.fsend at.packet in
    let behind : List ℕ = drop at.fsend at.packet in
    elim (constructor_of self (get_type view at.curframe) view behind at.curframe) [
      | none ↦ none
      | some none ↦ some none
      | some (some built) ↦ elim built.newpacket [
        | none ↦
            let next : ℕ = at.curframe + (generictlv_hdrsz + built.frame.length) in
            some (some (built, record at { curframe = next }))
        | some newpacket ↦
            let fresh : Place = record {
              packet = newpacket;
              curframe = 0;
              fsend = length newpacket;
            } in
            some (some (built, fresh))
      ]
    ]

-- What decoding comes to: a read past the end of the packet, no more fuel, or a result.
pub data Outcome (A : Type 0) : Type 0 where
  overread : Outcome A
  no_fuel : Outcome A
  result : A → Outcome A

-- The loop over the frames of a frameset: `none` is a jump to `errout`.
unfoldable pub decode_frames :
    ℕ → PacketDecoder → Place → Bool → List Frame → Outcome (Option (List Frame × Place))
decode_frames zero self at firstframe frames = Outcome.no_fuel
decode_frames (suc fuel) self at firstframe frames =
    if not (ltb at.curframe at.fsend)
    then Outcome.result (some (frames, at))
    else elim (decode_frame self at) [
      | none ↦ Outcome.overread
      | some none ↦ Outcome.result none
      | some (some one) ↦
          let more = decode_frames fuel self one.1 false (frames ++ one.0.frame ∷ []) in
          if firstframe && not one.0.is_sign then Outcome.result none else more
    ]

-- A decoded frameset.
pub record FrameSet : Type 0 where
  pub fstype : ℕ
  pub fsflags : ℕ
  pub framelist : List Frame

abbrev pub frameset_initsize : ℕ
frameset_initsize = 7
