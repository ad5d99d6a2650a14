-- ===== src/PacketDecoder/Framesets.antt =====
-- clientlib/packetdecoder.c: the loop over the framesets of a datagram.
use assimilation_official.Common.{
  ℕ, zero, suc, ◌+◌, ◌-◌, ◌%◌, ◌^◌, ◌≡◌, ◌⊎◌, refl, inl, inr, true, false, not, ◌&&◌, Option, none,
  some, List, [], ◌∷◌, ◌++◌, length, take, drop, leb, ltb, ◌==◌, if◌then◌else◌,
}
use assimilation_official.Tlv.Bytes.{get_guint16}
use assimilation_official.Tlv.Generic.{generictlv_hdrsz, get_type, get_len, is_valid}
use assimilation_official.PacketDecoder.{
  PacketDecoder, FrameSet, Place, Outcome, decode_frames, frameset_initsize,
}

-- `_decode_packet_get_frameset_data`, where the end that it is given is `framesetlen` bytes from the
-- start: the frameset without its frames, and the start of the next one; `none` is NULL.
unfoldable pub frameset_data : List ℕ → ℕ → ℕ → Option (FrameSet × ℕ)
frameset_data pkt fsstart framesetlen =
    let view : List ℕ = take (fsstart + framesetlen) pkt in
    if ltb framesetlen frameset_initsize
    then none
    else some (
      record {
        fstype = get_type view fsstart;
        fsflags = get_guint16 view (fsstart + generictlv_hdrsz);
        framelist = [];
      },
      fsstart + frameset_initsize + get_len view fsstart,
    )

-- The room that is left behind the header, as a guint32.
abbrev pub room : List ℕ → ℕ → ℕ
room pkt cur =
    if leb (cur + frameset_initsize) (length pkt)
    then (length pkt - (cur + frameset_initsize)) % 2 ^ 32
    else 2 ^ 32 - (cur + frameset_initsize - length pkt)

-- What becomes of the packet at hand: a jump to `errout`, an early return, or the next frameset.
pub data Step : Type 0 where
  errout : Step
  returned : Step
  goes_on : FrameSet → ℕ → Step

-- A step goes on with the next frameset, or it is one of the others.
pub Outcome-cases :
    (o : Outcome Step)
    → (o ≡ Outcome.overread)
      ⊎ (o ≡ Outcome.no_fuel)
      ⊎ (o ≡ Outcome.result Step.errout)
      ⊎ (o ≡ Outcome.result Step.returned)
      ⊎ ((fs : FrameSet) × (next : ℕ) × (o ≡ Outcome.result (Step.goes_on fs next)))
Outcome-cases Outcome.overread = inl refl
Outcome-cases Outcome.no_fuel = inr (inl refl)
Outcome-cases (Outcome.result Step.errout) = inr (inr (inl refl))
Outcome-cases (Outcome.result Step.returned) = inr (inr (inr (inl refl)))
Outcome-cases (Outcome.result (Step.goes_on fs next)) = inr (inr (inr (inr (fs, next, refl))))

-- The frames of a frameset whose data have been read, and the checks that follow them.
unfoldable pub finish_frameset : ℕ → PacketDecoder → List ℕ → ℕ → ℕ → FrameSet × ℕ → Outcome Step
finish_frameset fuel self pkt cur framesetlen fsdata =
    let at : Place = record {
      packet = pkt;
      curframe = cur + frameset_initsize;
      fsend = cur + framesetlen + frameset_initsize;
    } in
    elim (decode_frames fuel self at true []) [
      | Outcome.overread ↦ Outcome.overread
      | Outcome.no_fuel ↦ Outcome.no_fuel
      | Outcome.result none ↦ Outcome.result Step.errout
      | Outcome.result (some done) ↦
          if done.1.curframe == done.1.fsend
          then Outcome.result (Step.goes_on (record fsdata.0 { framelist = done.0 }) fsdata.1)
          else Outcome.result Step.errout
    ]

-- One round of the loop of `_pktdata_to_framesetlist`. A frameset whose header runs past the end of
-- the packet is read past it when its length allows for a header.
unfoldable pub one_frameset : ℕ → PacketDecoder → List ℕ → ℕ → Outcome Step
one_frameset fuel self pkt cur =
    let framesetlen : ℕ = get_len pkt cur in
    if ltb (room pkt cur) framesetlen
    then Outcome.result Step.errout
    else if ltb (length pkt) (cur + frameset_initsize) && leb frameset_initsize framesetlen
    then Outcome.overread
    else elim (frameset_data pkt cur framesetlen) [
      | none ↦ Outcome.result Step.returned
      | some fsdata ↦ elim (is_valid (drop (cur + frameset_initsize) pkt)) [
        | none ↦ Outcome.no_fuel
        | some false ↦ Outcome.result Step.errout
        | some true ↦ finish_frameset fuel self pkt cur framesetlen fsdata
      ]
    ]

-- The loop of `_pktdata_to_framesetlist`, with the framesets so far.
unfoldable pub framesets_loop :
    ℕ → PacketDecoder → List ℕ → ℕ → List FrameSet → Outcome (List FrameSet)
framesets_loop zero self pkt cur ret = Outcome.no_fuel
framesets_loop (suc fuel) self pkt cur ret =
    if not (ltb cur (length pkt))
    then Outcome.result ret
    else elim (one_frameset (suc fuel) self pkt cur) [
      | Outcome.overread ↦ Outcome.overread
      | Outcome.no_fuel ↦ Outcome.no_fuel
      | Outcome.result Step.errout ↦ Outcome.result []
      | Outcome.result Step.returned ↦ Outcome.result ret
      | Outcome.result (Step.goes_on fs next) ↦ framesets_loop fuel self pkt next (ret ++ fs ∷ [])
    ]

-- `_pktdata_to_framesetlist`
unfoldable pub pktdata_to_framesetlist : ℕ → PacketDecoder → List ℕ → Outcome (List FrameSet)
pktdata_to_framesetlist fuel self pkt = framesets_loop fuel self pkt 0 []
