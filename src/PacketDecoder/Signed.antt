-- ===== src/PacketDecoder/Signed.antt =====
-- clientlib/packetdecoder.c: the signature frame at the head of a frameset.
use assimilation_official.Common.{
  ℕ, zero, suc, ◌+◌, ◌<◌, ◌≡◌, drop, ◌⊎◌, refl, inl, inr, true, false, Option, none, some, List, [],
  ◌∷◌, ◌++◌, length, take, arith, Option-cases, All,
}
use mathlib.Core.Path.{subst}
use native.Mathlib.Decide.{dec_lt}
use assimilation_official.Tlv.Generic.{frametype_sig, get_type, get_len}
use assimilation_official.PacketDecoder.{
  Frame, FrameSet, Built, Place, Outcome, PacketDecoder, FrameTypeToFrame, packetdecoder_new,
  frame_tlvconstructor, unknownframe_tlvconstructor, signframe_tlvconstructor, constructor_of,
  decode_frame, decode_frames, frameset_initsize,
}
use assimilation_official.PacketDecoder.Framesets.{
  frameset_data, finish_frameset, one_frameset, framesets_loop, pktdata_to_framesetlist, Step,
  Outcome-cases,
}
use assimilation_official.PacketDecoder.Total.{frameset_data_lem}
use assimilation_official.PacketDecoder.Constructors.{Makes, constructor_of-Makes}

-- A SignFrame has the frame type of signatures.
abbrev pub IsTyped : Built → Type 0
IsTyped built = built.is_sign ≡ true → built.frame.type ≡ frametype_sig

pub frame_tlvconstructor-IsTyped : Makes IsTyped frame_tlvconstructor
unfolding frame_tlvconstructor
frame_tlvconstructor-IsTyped pkt behind tlv built e = ground (arith, e)

pub unknownframe_tlvconstructor-IsTyped : Makes IsTyped unknownframe_tlvconstructor
unfolding unknownframe_tlvconstructor
unknownframe_tlvconstructor-IsTyped pkt behind tlv built e = ground (arith, e)

pub signframe_tlvconstructor-IsTyped :
    (checksum_length : ℕ → ℕ) → Makes IsTyped (signframe_tlvconstructor checksum_length)
unfolding signframe_tlvconstructor
signframe_tlvconstructor-IsTyped checksum_length pkt behind tlv built e = ground (arith, e)

abbrev AreTyped : PacketDecoder → Type 0
AreTyped self = (frametype : ℕ) → Makes IsTyped (constructor_of self frametype)

-- The first frame is of the type of signatures.
abbrev pub StartsSigned : List Frame → Type 0
StartsSigned [] = ⊥
StartsSigned (frame ∷ rest) = frame.type ≡ frametype_sig

snoc-StartsSigned : (frames more : List Frame) → StartsSigned frames → StartsSigned (frames ++ more)
snoc-StartsSigned [] more s = absurd s
snoc-StartsSigned (frame ∷ rest) more s = s

decode_frame-IsTyped :
    (self : PacketDecoder) (at : Place) (one : Built × Place)
    → AreTyped self
    → decode_frame self at ≡ some (some one)
    → IsTyped one.0
unfolding decode_frame
decode_frame-IsTyped self at one p e =
    let view : List ℕ = take at.fsend at.packet in
    let behind : List ℕ = drop at.fsend at.packet in
    elim (Option-cases (constructor_of self (get_type view at.curframe) view behind at.curframe)) [
      | inl x ↦ ground (arith, x)
      | inr (none, x) ↦ ground (arith, x)
      | inr (some built, x) ↦
          let typed = p (get_type view at.curframe) view behind at.curframe built x in
          ground (arith, x, typed, e)
    ]

decode_frames_rest :
    (fuel : ℕ) (self : PacketDecoder) (at : Place) (frames : List Frame) (done : List Frame × Place)
    → StartsSigned frames
    → decode_frames fuel self at false frames ≡ Outcome.result (some done)
    → StartsSigned done.0
unfolding decode_frames
decode_frames_rest zero self at frames done s e = absurd (ground (arith, e))
decode_frames_rest (suc fuel) self at frames done s e = elim (dec_lt at.curframe at.fsend) [
  | no out ↦
      let same : frames ≡ done.0 = ground (arith, out, e) in subst (λ f. StartsSigned f) same s
  | yes inside ↦ elim (Option-cases (decode_frame self at)) [
    | inl x ↦ absurd (ground (arith, x, inside, e))
    | inr (none, x) ↦ absurd (ground (arith, x, inside, e))
    | inr (some one, x) ↦
        decode_frames_rest fuel self one.1 (frames ++ one.0.frame ∷ []) done
          (snoc-StartsSigned frames (one.0.frame ∷ []) s) (ground (arith, x, inside, e))
  ]
]

decode_frames_first :
    (fuel : ℕ) (self : PacketDecoder) (at : Place) (done : List Frame × Place)
    → AreTyped self
    → at.curframe < at.fsend
    → decode_frames fuel self at true [] ≡ Outcome.result (some done)
    → StartsSigned done.0
unfolding decode_frames
decode_frames_first zero self at done p h e = absurd (ground (arith, e))
decode_frames_first (suc fuel) self at done p h e = elim (Option-cases (decode_frame self at)) [
  | inl x ↦ absurd (ground (arith, x, e))
  | inr (none, x) ↦ absurd (ground (arith, x, e))
  | inr (some one, x) ↦
      let typed = decode_frame-IsTyped self at one p x in
      decode_frames_rest fuel self one.1 (one.0.frame ∷ []) done (ground (arith, x, h, e, typed))
        (ground (arith, x, h, e))
]

decoded-cases :
    (o : Outcome (Option (List Frame × Place)))
    → (o ≡ Outcome.overread)
      ⊎ (o ≡ Outcome.no_fuel)
      ⊎ (o ≡ Outcome.result none)
      ⊎ ((done : List Frame × Place) × (o ≡ Outcome.result (some done)))
decoded-cases Outcome.overread = inl refl
decoded-cases Outcome.no_fuel = inr (inl refl)
decoded-cases (Outcome.result none) = inr (inr (inl refl))
decoded-cases (Outcome.result (some done)) = inr (inr (inr (done, refl)))

finish_frameset-StartsSigned :
    (fuel : ℕ) (self : PacketDecoder) (pkt : List ℕ) (cur framesetlen : ℕ) (fsdata : FrameSet × ℕ)
    (fs : FrameSet) (next : ℕ)
    → AreTyped self
    → 0 < framesetlen
    → finish_frameset fuel self pkt cur framesetlen fsdata ≡ Outcome.result (Step.goes_on fs next)
    → StartsSigned fs.framelist
unfolding finish_frameset
finish_frameset-StartsSigned fuel self pkt cur framesetlen fsdata fs next p h e =
    let at : Place = record {
      packet = pkt;
      curframe = cur + frameset_initsize;
      fsend = cur + framesetlen + frameset_initsize;
    } in
    elim (decoded-cases (decode_frames fuel self at true [])) [
      | inl x ↦ absurd (ground (arith, x, e))
      | inr (inl x) ↦ absurd (ground (arith, x, e))
      | inr (inr (inl x)) ↦ absurd (ground (arith, x, e))
      | inr (inr (inr (done, x))) ↦
          let same : done.0 ≡ fs.framelist = ground (arith, x, e) in
          subst (λ f. StartsSigned f) same (decode_frames_first fuel self at done p (omega arith) x)
    ]

one_frameset-StartsSigned :
    (fuel : ℕ) (self : PacketDecoder) (pkt : List ℕ) (cur : ℕ) (fs : FrameSet) (next : ℕ)
    → AreTyped self
    → one_frameset fuel self pkt cur ≡ Outcome.result (Step.goes_on fs next)
    → StartsSigned fs.framelist
unfolding one_frameset
one_frameset-StartsSigned fuel self pkt cur fs next p e =
    let framesetlen : ℕ = get_len pkt cur in
    elim (Option-cases (frameset_data pkt cur framesetlen)) [
      | inl x ↦ absurd (ground (arith, x, e))
      | inr (fsdata, x) ↦
          finish_frameset-StartsSigned fuel self pkt cur framesetlen fsdata fs next p
            (omega (arith, frameset_data_lem pkt cur framesetlen fsdata x)) (ground (arith, x, e))
    ]

All-snoc :
    (ret : List FrameSet) (fs : FrameSet)
    → All (λ fs. StartsSigned fs.framelist) ret
    → StartsSigned fs.framelist
    → All (λ fs. StartsSigned fs.framelist) (ret ++ fs ∷ [])
All-snoc [] fs s t = (t, tt)
All-snoc (one ∷ ret) fs s t = (s.0, All-snoc ret fs s.1 t)

framesets_loop-StartsSigned :
    (fuel : ℕ) (self : PacketDecoder) (pkt : List ℕ) (cur : ℕ) (ret out : List FrameSet)
    → AreTyped self
    → All (λ fs. StartsSigned fs.framelist) ret
    → framesets_loop fuel self pkt cur ret ≡ Outcome.result out
    → All (λ fs. StartsSigned fs.framelist) out
unfolding framesets_loop
framesets_loop-StartsSigned zero self pkt cur ret out p s e = absurd (ground (arith, e))
framesets_loop-StartsSigned (suc fuel) self pkt cur ret out p s e = elim (dec_lt cur (length pkt)) [
  | no over ↦
      let same : ret ≡ out = ground (arith, over, e) in
      subst (λ l. All (λ fs. StartsSigned fs.framelist) l) same s
  | yes inside ↦ elim (Outcome-cases (one_frameset (suc fuel) self pkt cur)) [
    | inl x ↦ absurd (ground (arith, x, inside, e))
    | inr (inl x) ↦ absurd (ground (arith, x, inside, e))
    | inr (inr (inl x)) ↦
        let same : [] ≡ out = ground (arith, x, inside, e) in
        subst (λ l. All (λ fs. StartsSigned fs.framelist) l) same tt
    | inr (inr (inr (inl x))) ↦
        let same : ret ≡ out = ground (arith, x, inside, e) in
        subst (λ l. All (λ fs. StartsSigned fs.framelist) l) same s
    | inr (inr (inr (inr (fs, next, x)))) ↦
        framesets_loop-StartsSigned fuel self pkt next (ret ++ fs ∷ []) out p
          (All-snoc ret fs s (one_frameset-StartsSigned (suc fuel) self pkt cur fs next p x))
          (ground (arith, x, inside, e))
  ]
]

-- Every frameset that comes out of a datagram starts with a frame of the type of signatures, whatever
-- constructors the decoder has, as long as none of them makes a SignFrame of another type.
pub pktdata_to_framesetlist-StartsSigned :
    (framemap : List FrameTypeToFrame) (fuel : ℕ) (pkt : List ℕ) (out : List FrameSet)
    → All (λ entry. Makes IsTyped entry.constructor) framemap
    → pktdata_to_framesetlist fuel (packetdecoder_new framemap) pkt ≡ Outcome.result out
    → All (λ fs. StartsSigned fs.framelist) out
unfolding pktdata_to_framesetlist
pktdata_to_framesetlist-StartsSigned framemap fuel pkt out f e =
    framesets_loop-StartsSigned fuel (packetdecoder_new framemap) pkt 0 [] out
      (λ frametype.
        constructor_of-Makes IsTyped framemap frametype f unknownframe_tlvconstructor-IsTyped)
      tt e
