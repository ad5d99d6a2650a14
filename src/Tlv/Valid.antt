-- ===== src/Tlv/Valid.antt =====
-- What `is_valid_generic_tlv_packet` of clientlib/generic_tlv_min.c decides.
use assimilation_official.Common.{
  ℕ, suc, zero, ◌+◌, ◌≤◌, ◌<◌, ◌≡◌, ◌⊎◌, inl, inr, ◌≢◌, ◌↔◌, true, none, some, List, length, arith,
}
use native.Mathlib.Decide.{dec_lt}
use assimilation_official.Tlv.Generic.{
  get_type, generictlv_hdrsz, frametype_sig, entry_end, first, valid_loop, is_valid,
}

-- From `tlv` on, the packet is entries one after the other, up to its end exactly.
pub data Tiled (pkt : List ℕ) : ℕ → Type 0 where
  done : {tlv : ℕ} → tlv ≡ length pkt → Tiled pkt tlv
  entry : {tlv : ℕ} → tlv < length pkt → Tiled pkt (entry_end pkt tlv) → Tiled pkt tlv

pub Tiled-length : (pkt : List ℕ) (tlv : ℕ) → Tiled pkt tlv → tlv ≤ length pkt
Tiled-length pkt tlv (done e) = omega arith
Tiled-length pkt tlv (entry h t) = omega arith

-- The first `j` entries are behind: the loop has enough fuel, and accepts what is tiled.
valid_loop-Tiled :
    (fuel : ℕ) (pkt : List ℕ) (j tlv : ℕ)
    → length pkt < tlv + fuel
    → tlv ≤ length pkt
    → (0 < j) ⊎ (get_type pkt tlv ≡ frametype_sig)
    → Tiled pkt tlv
    → valid_loop fuel pkt j tlv ≡ some true
unfolding valid_loop
valid_loop-Tiled zero pkt j tlv hf hl hj t = absurd (omega arith)
valid_loop-Tiled (suc fuel) pkt j tlv hf hl hj (done e) = ground arith
valid_loop-Tiled (suc fuel) pkt j tlv hf hl hj (entry h t) =
    let inside = Tiled-length pkt (entry_end pkt tlv) t in
    let more =
      valid_loop-Tiled fuel pkt (j + 1) (entry_end pkt tlv) (omega arith) inside (inl (omega arith))
        t in
    ground (arith, more, inside)

valid_loop_sound :
    (fuel : ℕ) (pkt : List ℕ) (j tlv : ℕ)
    → tlv ≤ length pkt
    → valid_loop fuel pkt j tlv ≡ some true
    → Tiled pkt tlv × ((tlv ≡ length pkt) ⊎ (0 < j) ⊎ (get_type pkt tlv ≡ frametype_sig))
unfolding valid_loop
valid_loop_sound zero pkt j tlv hl e = absurd (ground arith)
valid_loop_sound (suc fuel) pkt j tlv hl e = elim (dec_lt tlv (length pkt)) [
  | no h ↦ (done (omega arith), inl (omega arith))
  | yes h ↦
      let inside : entry_end pkt tlv ≤ length pkt = ground arith in
      let rest = valid_loop_sound fuel pkt (j + 1) (entry_end pkt tlv) inside (ground arith) in
      (entry h rest.0, ground arith)
]

-- What the check accepts.
abbrev pub IsAccepted : List ℕ → Type 0
IsAccepted pkt =
    (generictlv_hdrsz ≤ length pkt)
    × ((length pkt < entry_end pkt 0) ⊎ ((get_type pkt 0 ≡ frametype_sig) × Tiled pkt 0))

is_valid_sound : (pkt : List ℕ) → is_valid pkt ≡ some true → IsAccepted pkt
unfolding is_valid first
is_valid_sound pkt e =
    let size : generictlv_hdrsz ≤ length pkt = ground arith in
    elim (dec_lt (length pkt) (entry_end pkt 0)) [
      | yes h ↦ (size, inl h)
      | no h ↦
          let t = valid_loop_sound (suc (length pkt)) pkt 0 0 (omega arith) (ground arith) in
          (size, inr (ground arith, t.0))
    ]

is_valid_complete : (pkt : List ℕ) → IsAccepted pkt → is_valid pkt ≡ some true
unfolding is_valid first
is_valid_complete pkt (size, inl h) = ground arith
is_valid_complete pkt (size, inr (e, t)) = elim (dec_lt (length pkt) (entry_end pkt 0)) [
  | yes h ↦ ground arith
  | no h ↦
      ground
        (arith, valid_loop-Tiled (suc (length pkt)) pkt 0 0 (omega arith) (omega arith) (inr e) t)
]

-- A packet is accepted exactly when it has room for a header and either its first entry runs past
-- the end of the packet, or it is made of entries up to its end and the first of them is a SIG.
pub is_valid_iff : (pkt : List ℕ) → (is_valid pkt ≡ some true) ↔ IsAccepted pkt
is_valid_iff pkt = (is_valid_sound pkt, is_valid_complete pkt)

valid_loop_total :
    (fuel : ℕ) (pkt : List ℕ) (j tlv : ℕ)
    → length pkt < tlv + fuel
    → tlv ≤ length pkt
    → valid_loop fuel pkt j tlv ≢ none
unfolding valid_loop
valid_loop_total zero pkt j tlv hf hl = absurd (omega arith)
valid_loop_total (suc fuel) pkt j tlv hf hl = elim (dec_lt (length pkt) (entry_end pkt tlv)) [
  | yes h ↦ ground arith
  | no h ↦
      let rest =
        valid_loop_total fuel pkt (j + 1) (entry_end pkt tlv) (omega arith) (omega arith) in
      ground (arith, rest)
]

-- The check comes to an answer on every packet, however malformed: its loop ends within as many
-- rounds as the packet has bytes, and one.
pub is_valid_total : (pkt : List ℕ) → is_valid pkt ≢ none
unfolding is_valid first
is_valid_total pkt =
    let rest = valid_loop_total (suc (length pkt)) pkt 0 0 (omega arith) (omega arith) in
    ground (arith, rest)
