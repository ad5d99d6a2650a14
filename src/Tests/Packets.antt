-- ===== src/Tests/Packets.antt =====
-- clientlib/packetdecoder.c and clientlib/signframe.c on small datagrams.
use assimilation_official.Common.{
  ℕ, zero, suc, ◌+◌, ◌≡◌, refl, ◌≢◌, none, some, List, [], ◌∷◌, ◌++◌, All, length, get_or, arith,
  ◌<◌, ◌≤◌,
}
use assimilation_official.Tlv.Bytes.{to_bytes, get_guint8, get_guint16, get_guint24, get_bytes}
use assimilation_official.Tlv.Generic.{
  get_type, get_len, get_value, is_valid, first, valid_loop, frametype_sig, generictlv_hdrsz,
}
use assimilation_official.PacketDecoder.{
  FrameSet, FrameTypeToFrame, PacketDecoder, Outcome, frame_tlvconstructor,
  unknownframe_tlvconstructor, value_at, memdup, signframe_tlvconstructor, max_frametype, fill_map,
  packetdecoder_new, constructor_of, decode_frame, decode_frames,
}
use assimilation_official.NetAddr.{ipv4}
use assimilation_official.PacketDecoder.Ports.{
  setaddr, isvalid, is_valid_value, ipportframe_tlvconstructor,
}
use assimilation_official.PacketDecoder.Framesets.{
  frameset_data, finish_frameset, one_frameset, framesets_loop, pktdata_to_framesetlist,
}
use assimilation_official.PacketDecoder.Constructors.{Makes}
use assimilation_official.PacketDecoder.Several.{Spans, two_framesets}
use assimilation_official.PacketDecoder.Signed.{
  StartsSigned, frame_tlvconstructor-IsTyped, signframe_tlvconstructor-IsTyped,
  pktdata_to_framesetlist-StartsSigned,
}
use assimilation_official.PacketDecoder.Checksum.{checksum_ignored}
use assimilation_official.PacketDecoder.Total.{KeepsPacket, pktdata_to_framesetlist_total}

abbrev sha_length : ℕ → ℕ
sha_length kind = 32

abbrev framemap : List FrameTypeToFrame
framemap =
    record { frametype = 0; constructor = frame_tlvconstructor }
    ∷ record { frametype = 1; constructor = signframe_tlvconstructor sha_length }
    ∷ []

abbrev decoder : PacketDecoder
decoder = packetdecoder_new framemap

-- A frameset of a signature of one byte and an END frame.
abbrev single : List ℕ
single = 0 ∷ 16 ∷ 0 ∷ 0 ∷ 13 ∷ 0 ∷ 0 ∷ 0 ∷ 1 ∷ 0 ∷ 0 ∷ 3 ∷ 1 ∷ 2 ∷ 9 ∷ 0 ∷ 0 ∷ 0 ∷ 0 ∷ 0 ∷ []

abbrev decoded : List FrameSet
decoded =
    record {
      fstype = 16;
      fsflags = 0;
      framelist =
          record { type = frametype_sig; length = 3; value = none }
          ∷ record { type = 0; length = 0; value = none }
          ∷ [];
    }
    ∷ []

single_decoded : pktdata_to_framesetlist 21 decoder single ≡ Outcome.result decoded
unfolding pktdata_to_framesetlist framesets_loop one_frameset finish_frameset frameset_data
    decode_frames decode_frame constructor_of packetdecoder_new max_frametype fill_map
    signframe_tlvconstructor frame_tlvconstructor unknownframe_tlvconstructor value_at memdup
    is_valid first valid_loop get_value get_type get_len get_guint8 get_guint16 get_guint24
    get_bytes
single_decoded = refl

-- A frameset whose length ends inside of the header of a second signature.
abbrev cut_short : List ℕ
cut_short = 0 ∷ 16 ∷ 0 ∷ 0 ∷ 10 ∷ 0 ∷ 0 ∷ 0 ∷ 1 ∷ 0 ∷ 0 ∷ 3 ∷ 1 ∷ 2 ∷ 9 ∷ 0 ∷ 1 ∷ 0 ∷ 0 ∷ 0 ∷ []

wild_read : pktdata_to_framesetlist 21 decoder cut_short ≡ Outcome.overread
unfolding pktdata_to_framesetlist framesets_loop one_frameset finish_frameset frameset_data
    decode_frames decode_frame constructor_of packetdecoder_new max_frametype fill_map
    signframe_tlvconstructor frame_tlvconstructor unknownframe_tlvconstructor value_at memdup
    is_valid first valid_loop get_value get_type get_len get_guint8 get_guint16 get_guint24
    get_bytes
wild_read = refl

-- A frameset whose length ends inside of an entry of another type.
abbrev cut_entry : List ℕ
cut_entry =
    0 ∷ 16 ∷ 0 ∷ 0 ∷ 15 ∷ 0 ∷ 0 ∷ 0 ∷ 1 ∷ 0 ∷ 0 ∷ 3 ∷ 1 ∷ 2 ∷ 9 ∷ 0 ∷ 99 ∷ 0 ∷ 0 ∷ 8 ∷ 1 ∷ 2 ∷ 3 ∷ 4
    ∷ 5 ∷ 6 ∷ 7 ∷ 8 ∷ []

long_copy : pktdata_to_framesetlist 29 decoder cut_entry ≡ Outcome.overread
unfolding pktdata_to_framesetlist framesets_loop one_frameset finish_frameset frameset_data
    decode_frames decode_frame constructor_of packetdecoder_new max_frametype fill_map
    signframe_tlvconstructor frame_tlvconstructor unknownframe_tlvconstructor value_at memdup
    is_valid first valid_loop get_value get_type get_len get_guint8 get_guint16 get_guint24
    get_bytes
long_copy = refl

two_framesets_example : pktdata_to_framesetlist 41 decoder (single ++ single) ≡ Outcome.result []
unfolding get_len get_guint16 get_guint24 get_bytes
two_framesets_example =
    two_framesets decoder (single ++ single) 40 (omega arith) (omega arith)
      (Spans.further (omega arith) (Spans.further (omega arith) Spans.here)) refl

frame_tlvconstructor-KeepsPacket : Makes KeepsPacket frame_tlvconstructor
unfolding frame_tlvconstructor
frame_tlvconstructor-KeepsPacket pkt behind tlv built e = ground (arith, e)

signframe_tlvconstructor-KeepsPacket : Makes KeepsPacket (signframe_tlvconstructor sha_length)
unfolding signframe_tlvconstructor
signframe_tlvconstructor-KeepsPacket pkt behind tlv built e = ground (arith, e)

pktdata_to_framesetlist_total_example :
    pktdata_to_framesetlist (suc (length single)) decoder single ≢ Outcome.no_fuel
pktdata_to_framesetlist_total_example =
    pktdata_to_framesetlist_total framemap single
      (frame_tlvconstructor-KeepsPacket, (signframe_tlvconstructor-KeepsPacket, tt))

pktdata_to_framesetlist-StartsSigned_example : All (λ fs. StartsSigned fs.framelist) decoded
pktdata_to_framesetlist-StartsSigned_example =
    pktdata_to_framesetlist-StartsSigned framemap 21 single decoded
      (frame_tlvconstructor-IsTyped, (signframe_tlvconstructor-IsTyped sha_length, tt))
      single_decoded

-- Signature frames that differ in the checksum.
abbrev one_sum : List ℕ
one_sum = 0 ∷ 1 ∷ 0 ∷ 0 ∷ 3 ∷ 1 ∷ 2 ∷ 9 ∷ []

abbrev other_sum : List ℕ
other_sum = 0 ∷ 1 ∷ 0 ∷ 0 ∷ 3 ∷ 1 ∷ 2 ∷ 200 ∷ []

sums_agree :
    (i : ℕ) → 0 ≤ i → i < 0 + (generictlv_hdrsz + 2) → get_or one_sum i 0 ≡ get_or other_sum i 0
sums_agree zero l h = refl
sums_agree (suc zero) l h = refl
sums_agree (suc (suc zero)) l h = refl
sums_agree (suc (suc (suc zero))) l h = refl
sums_agree (suc (suc (suc (suc zero)))) l h = refl
sums_agree (suc (suc (suc (suc (suc zero))))) l h = refl
sums_agree (suc (suc (suc (suc (suc (suc zero)))))) l h = refl
sums_agree (suc (suc (suc (suc (suc (suc (suc i))))))) l h = absurd (omega arith)

checksum_ignored_example :
    signframe_tlvconstructor sha_length one_sum [] 0
    ≡ signframe_tlvconstructor sha_length other_sum [] 0
checksum_ignored_example = checksum_ignored sha_length one_sum other_sum [] [] 0 refl sums_agree

-- The address 10.10.10.5:1984 in an entry of type 12.
abbrev address_entry : List ℕ
address_entry = 0 ∷ 12 ∷ 0 ∷ 0 ∷ 8 ∷ 7 ∷ 192 ∷ 0 ∷ 1 ∷ 10 ∷ 10 ∷ 10 ∷ 5 ∷ []

address_read :
    ipportframe_tlvconstructor address_entry [] 0
    ≡ some (some (setaddr 12 ipv4 1984 (10 ∷ 10 ∷ 10 ∷ 5 ∷ [])))
unfolding ipportframe_tlvconstructor setaddr isvalid is_valid_value get_value get_type get_len
    get_guint16 get_guint24 get_bytes to_bytes
address_read = refl
