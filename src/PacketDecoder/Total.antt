-- ===== src/PacketDecoder/Total.antt =====
-- clientlib/packetdecoder.c: the loops over framesets and frames end.
use assimilation_official.Common.{
  ℕ, zero, suc, ◌+◌, ◌<◌, ◌≤◌, ◌≡◌, ◌≢◌, inl, inr, Bool, true, false, none, some, List, [], ◌∷◌,
  ◌++◌, length, take, drop, arith, Option-cases, All,
}
use native.Mathlib.Decide.{dec_lt}
use assimilation_official.Tlv.Generic.{generictlv_hdrsz, get_type, get_len}
use assimilation_official.Tlv.Valid.{is_valid_total}
use assimilation_official.PacketDecoder.{
  Frame, FrameSet, Built, Place, Outcome, PacketDecoder, FrameTypeToFrame, packetdecoder_new,
  unknownframe_tlvconstructor, constructor_of, decode_frame, decode_frames, frameset_initsize,
}
use assimilation_official.PacketDecoder.Framesets.{
  frameset_data, finish_frameset, one_frameset, framesets_loop, pktdata_to_framesetlist, Step,
  Outcome-cases,
}
use assimilation_official.PacketDecoder.Constructors.{Makes, constructor_of-Makes}

-- The frame leaves the packet as it is.
abbrev pub KeepsPacket : Built → Type 0
KeepsPacket built = built.newpacket ≡ none

unknownframe_KeepsPacket : Makes KeepsPacket unknownframe_tlvconstructor
unfolding unknownframe_tlvconstructor
unknownframe_KeepsPacket pkt behind tlv built e = ground (arith, e)

-- All constructors of a decoder leave the packet as it is.
abbrev IsPlain : PacketDecoder → Type 0
IsPlain self = (frametype : ℕ) → Makes KeepsPacket (constructor_of self frametype)

decode_frame_lem :
    (self : PacketDecoder) (at : Place) (one : Built × Place)
    → IsPlain self
    → decode_frame self at ≡ some (some one)
    → (one.1.fsend ≡ at.fsend) × (at.curframe + generictlv_hdrsz ≤ one.1.curframe)
unfolding decode_frame
decode_frame_lem self at one p e =
    let view : List ℕ = take at.fsend at.packet in
    let behind : List ℕ = drop at.fsend at.packet in
    elim (Option-cases (constructor_of self (get_type view at.curframe) view behind at.curframe)) [
      | inl x ↦ ground (arith, x)
      | inr (none, x) ↦ ground (arith, x)
      | inr (some built, x) ↦
          let keeps = p (get_type view at.curframe) view behind at.curframe built x in
          ground (arith, x, keeps)
    ]

decode_frames_total :
    (fuel : ℕ) (self : PacketDecoder) (at : Place) (firstframe : Bool) (frames : List Frame)
    → IsPlain self
    → 0 < fuel
    → at.fsend < at.curframe + fuel
    → decode_frames fuel self at firstframe frames ≢ Outcome.no_fuel
unfolding decode_frames
decode_frames_total zero self at firstframe frames p h k = absurd (omega arith)
decode_frames_total (suc fuel) self at firstframe frames p h k =
    elim (Option-cases (decode_frame self at)) [
      | inl x ↦ ground (arith, x)
      | inr (none, x) ↦ ground (arith, x)
      | inr (some one, x) ↦ elim (dec_lt at.curframe at.fsend) [
        | no out ↦ ground (arith, out)
        | yes inside ↦
            let moved = decode_frame_lem self at one p x in
            let rest =
              decode_frames_total fuel self one.1 false (frames ++ one.0.frame ∷ []) p (omega arith)
                (omega (arith, moved)) in
            ground (arith, x, rest)
      ]
    ]

finish_total :
    (fuel : ℕ) (self : PacketDecoder) (pkt : List ℕ) (cur framesetlen : ℕ) (fsdata : FrameSet × ℕ)
    → IsPlain self
    → 0 < fuel
    → framesetlen < fuel
    → finish_frameset fuel self pkt cur framesetlen fsdata ≢ Outcome.no_fuel
unfolding finish_frameset
finish_total fuel self pkt cur framesetlen fsdata p h k =
    let rest =
      decode_frames_total fuel self
        (record {
          packet = pkt;
          curframe = cur + frameset_initsize;
          fsend = cur + framesetlen + frameset_initsize;
        })
        true [] p h (omega arith) in
    ground (arith, rest)

pub frameset_data_lem :
    (pkt : List ℕ) (cur framesetlen : ℕ) (fsdata : FrameSet × ℕ)
    → frameset_data pkt cur framesetlen ≡ some fsdata
    → (frameset_initsize ≤ framesetlen) × (cur + frameset_initsize ≤ fsdata.1)
unfolding frameset_data
frameset_data_lem pkt cur framesetlen fsdata e = ground (arith, e)

finish_next :
    (fuel : ℕ) (self : PacketDecoder) (pkt : List ℕ) (cur framesetlen : ℕ) (fsdata : FrameSet × ℕ)
    (fs : FrameSet) (next : ℕ)
    → finish_frameset fuel self pkt cur framesetlen fsdata ≡ Outcome.result (Step.goes_on fs next)
    → next ≡ fsdata.1
unfolding finish_frameset
finish_next fuel self pkt cur framesetlen fsdata fs next e = ground (arith, e)

one_frameset_next :
    (fuel : ℕ) (self : PacketDecoder) (pkt : List ℕ) (cur : ℕ) (fs : FrameSet) (next : ℕ)
    → one_frameset fuel self pkt cur ≡ Outcome.result (Step.goes_on fs next)
    → cur + frameset_initsize ≤ next
unfolding one_frameset
one_frameset_next fuel self pkt cur fs next e =
    let framesetlen : ℕ = get_len pkt cur in
    elim (Option-cases (frameset_data pkt cur framesetlen)) [
      | inl x ↦ ground (arith, x, e)
      | inr (fsdata, x) ↦
          let after = finish_next fuel self pkt cur framesetlen fsdata fs next in
          ground (arith, x, e, after, frameset_data_lem pkt cur framesetlen fsdata x)
    ]

one_frameset_total :
    (fuel : ℕ) (self : PacketDecoder) (pkt : List ℕ) (cur : ℕ)
    → IsPlain self
    → 0 < fuel
    → length pkt < cur + fuel
    → one_frameset fuel self pkt cur ≢ Outcome.no_fuel
unfolding one_frameset
one_frameset_total fuel self pkt cur p h k =
    let framesetlen : ℕ = get_len pkt cur in
    let valid = is_valid_total (drop (cur + frameset_initsize) pkt) in
    elim (Option-cases (frameset_data pkt cur framesetlen)) [
      | inl x ↦ ground (arith, x)
      | inr (fsdata, x) ↦ elim (dec_lt framesetlen fuel) [
        | no big ↦ ground (arith, x, frameset_data_lem pkt cur framesetlen fsdata x)
        | yes small ↦
            ground (arith, x, valid, finish_total fuel self pkt cur framesetlen fsdata p h small)
      ]
    ]

framesets_loop_total :
    (fuel : ℕ) (self : PacketDecoder) (pkt : List ℕ) (cur : ℕ) (ret : List FrameSet)
    → IsPlain self
    → 0 < fuel
    → length pkt < cur + fuel
    → framesets_loop fuel self pkt cur ret ≢ Outcome.no_fuel
unfolding framesets_loop
framesets_loop_total zero self pkt cur ret p h k = absurd (omega arith)
framesets_loop_total (suc fuel) self pkt cur ret p h k = elim (dec_lt cur (length pkt)) [
  | no out ↦ ground (arith, out)
  | yes inside ↦
      let ends = one_frameset_total (suc fuel) self pkt cur p (omega arith) k in
      elim (Outcome-cases (one_frameset (suc fuel) self pkt cur)) [
        | inl e ↦ ground (arith, inside, e)
        | inr (inl e) ↦ absurd (ends e)
        | inr (inr (inl e)) ↦ ground (arith, inside, e)
        | inr (inr (inr (inl e))) ↦ ground (arith, inside, e)
        | inr (inr (inr (inr (fs, next, e)))) ↦
            let moved = one_frameset_next (suc fuel) self pkt cur fs next e in
            let rest =
              framesets_loop_total fuel self pkt next (ret ++ fs ∷ []) p (omega arith)
                (omega (arith, moved)) in
            ground (arith, inside, e, rest)
      ]
]

-- What a decoder makes of a datagram it makes of it within as many rounds as the datagram has bytes,
-- and one, where none of its constructors replaces the packet.
pub pktdata_to_framesetlist_total :
    (framemap : List FrameTypeToFrame) (pkt : List ℕ)
    → All (λ entry. Makes KeepsPacket entry.constructor) framemap
    → pktdata_to_framesetlist (suc (length pkt)) (packetdecoder_new framemap) pkt ≢ Outcome.no_fuel
unfolding pktdata_to_framesetlist
pktdata_to_framesetlist_total framemap pkt f =
    framesets_loop_total (suc (length pkt)) (packetdecoder_new framemap) pkt 0 []
      (λ frametype. constructor_of-Makes KeepsPacket framemap frametype f unknownframe_KeepsPacket)
      (omega arith) (omega arith)
