-- ===== src/PacketDecoder/Several.antt =====
-- clientlib/packetdecoder.c: datagrams of more than one frameset.
use assimilation_official.Common.{
  ℕ, suc, ◌+◌, ◌-◌, ◌^◌, ◌≡◌, ◌≤◌, ◌<◌, inl, inr, true, false, some, List, [], length, drop, arith,
  length-drop, Option-cases,
}
use assimilation_official.Tlv.Bytes.{get_guint24}
use assimilation_official.Tlv.Generic.{get_len, entry_end, is_valid}
use assimilation_official.Tlv.Valid.{Tiled, Tiled-length, is_valid_iff, is_valid_total}
use assimilation_official.PacketDecoder.{PacketDecoder, Outcome, frameset_initsize}
use assimilation_official.PacketDecoder.Framesets.{
  frameset_data, one_frameset, framesets_loop, pktdata_to_framesetlist, Step,
}

-- The entries from one place of a packet to another.
pub data Spans (pkt : List ℕ) : ℕ → ℕ → Type 0 where
  here : {at : ℕ} → Spans pkt at at
  further :
      {from to : ℕ} → from < length pkt → Spans pkt (entry_end pkt from) to → Spans pkt from to

-- Where all of a packet is entries, so is what follows its first ones.
Tiled-Spans :
    (pkt : List ℕ) (from to : ℕ)
    → Spans pkt from to
    → Tiled pkt from
    → to < length pkt
    → Tiled pkt to
Tiled-Spans pkt from to here t l = t
Tiled-Spans pkt from to (further h s) (Tiled.done e) l = absurd (omega arith)
Tiled-Spans pkt from to (further h s) (Tiled.entry k t) l =
    Tiled-Spans pkt (entry_end pkt from) to s t l

Spans-le : (pkt : List ℕ) (from to : ℕ) → Spans pkt from to → from ≤ to
Spans-le pkt from to here = omega arith
Spans-le pkt from to (further h s) = omega (arith, Spans-le pkt (entry_end pkt from) to s)

-- Behind its first `len` bytes, which are entries, there is the header of a second frameset that
-- reaches to the end.
record Second (q : List ℕ) (len : ℕ) : Type 0 where
  frames : Spans q 0 len
  some_frame : 0 < len
  reaches : len + frameset_initsize + get_guint24 q (len + 2) ≡ length q

first_entry :
    (q : List ℕ) (len : ℕ) → Spans q 0 len → 0 < len → len ≤ length q → entry_end q 0 ≤ length q
first_entry q len here n l = absurd (omega arith)
first_entry q len (further h s) n l = omega (arith, Spans-le q (entry_end q 0) len s)

at_end : (q : List ℕ) (at : ℕ) → at + 2 ≡ length q → Tiled q at → ⊥
at_end q at e (Tiled.done x) = omega arith
at_end q at e (Tiled.entry h t) = omega (arith, Tiled-length q (entry_end q at) t)

Second-end : (q : List ℕ) (len : ℕ) → Second q len → entry_end q len + 2 ≡ length q
unfolding get_len
Second-end q len s = ground (arith, s.reaches)

first_end : (q : List ℕ) (len : ℕ) → Second q len → entry_end q 0 ≤ length q
first_end q len s = first_entry q len s.frames s.some_frame (omega (arith, s.reaches))

not-Tiled : (q : List ℕ) (len : ℕ) → Second q len → Tiled q len → ⊥
not-Tiled q len s (Tiled.done e) = omega (arith, s.reaches)
not-Tiled q len s (Tiled.entry h t) = at_end q (entry_end q len) (Second-end q len s) t

refused : (q : List ℕ) (len : ℕ) → Second q len → is_valid q ≡ some false
refused q len s = elim (Option-cases (is_valid q)) [
  | inl x ↦ absurd (is_valid_total q x)
  | inr (true, x) ↦ elim ((is_valid_iff q).0 x).1 [
    | inl over ↦ absurd (omega (arith, first_end q len s))
    | inr (sig, t) ↦
        absurd (not-Tiled q len s (Tiled-Spans q 0 len s.frames t (omega (arith, s.reaches))))
  ]
  | inr (false, x) ↦ x
]

len_lem : (pkt : List ℕ) → get_guint24 pkt 2 ≤ length pkt → get_len pkt 0 ≡ get_guint24 pkt 2
unfolding get_len
len_lem pkt h = ground arith

-- What follows the header of the first frameset is not valid, so neither is the frameset.
first_refused :
    (fuel : ℕ) (self : PacketDecoder) (pkt : List ℕ)
    → length pkt < 2 ^ 32
    → frameset_initsize ≤ get_guint24 pkt 2
    → Second (drop frameset_initsize pkt) (get_guint24 pkt 2)
    → one_frameset fuel self pkt 0 ≡ Outcome.result Step.errout
unfolding one_frameset frameset_data
first_refused fuel self pkt small header s =
    let whole : length (drop frameset_initsize pkt) ≡ length pkt - frameset_initsize =
      length-drop frameset_initsize pkt in
    let len : get_len pkt 0 ≡ get_guint24 pkt 2 = len_lem pkt (omega (arith, whole, s.reaches)) in
    let no : is_valid (drop frameset_initsize pkt) ≡ some false =
      refused (drop frameset_initsize pkt) (get_guint24 pkt 2) s in
    rw len (ground (arith, whole, no, s.reaches))

-- A datagram of two framesets, the first of which is made of entries up to its end and is seven bytes
-- long or more, is rejected, and nothing of it is passed on.
pub two_framesets :
    (self : PacketDecoder) (pkt : List ℕ) (fuel : ℕ)
    → length pkt < 2 ^ 32
    → frameset_initsize ≤ get_guint24 pkt 2
    → Spans (drop frameset_initsize pkt) 0 (get_guint24 pkt 2)
    → get_guint24 pkt 2
        + frameset_initsize
        + get_guint24 (drop frameset_initsize pkt) (get_guint24 pkt 2 + 2)
      ≡ length (drop frameset_initsize pkt)
    → pktdata_to_framesetlist (suc fuel) self pkt ≡ Outcome.result []
unfolding pktdata_to_framesetlist framesets_loop one_frameset
two_framesets self pkt fuel small header frames reaches =
    simp
      (first_refused (suc fuel) self pkt small header
        (record { frames = frames; some_frame = omega (arith, header); reaches = reaches }))
      (ground (arith, length-drop frameset_initsize pkt, reaches))
