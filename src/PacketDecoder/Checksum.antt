-- ===== src/PacketDecoder/Checksum.antt =====
-- clientlib/signframe.c: what is looked at of a signature frame.
use assimilation_official.Common.{
  ℕ, ◌+◌, ◌<◌, ◌≤◌, ◌≡◌, refl, inl, inr, some, List, length, arith, Option-cases, get_or,
}
use assimilation_official.Tlv.Bytes.{get_guint8, get_guint16, get_guint24, get_bytes}
use assimilation_official.Tlv.Generic.{generictlv_hdrsz, get_len, get_value}
use assimilation_official.PacketDecoder.{signframe_tlvconstructor}

-- Two packets of the same length that agree on `n` bytes from a place on.
module _ (pkt pkt' : List ℕ) (tlv n : ℕ) (l : length pkt ≡ length pkt')
    (h : (i : ℕ) → tlv ≤ i → i < tlv + n → get_or pkt i 0 ≡ get_or pkt' i 0) where
  get_len-agree : 5 ≤ n → get_len pkt tlv ≡ get_len pkt' tlv
  unfolding get_len get_guint24 get_guint16 get_bytes
  get_len-agree k =
      rw
        (
          l,
          h (tlv + 2) (omega arith) (omega arith),
          h (tlv + 2 + 1) (omega arith) (omega arith),
          h (tlv + 2 + 1 + 1) (omega arith) (omega arith),
        )
        refl

  get_guint8-agree : (i : ℕ) → tlv ≤ i → i < tlv + n → get_guint8 pkt i ≡ get_guint8 pkt' i
  unfolding get_guint8 get_bytes
  get_guint8-agree i j k = rw (l, h i j k) refl

  get_value-agree : 5 ≤ n → get_value pkt tlv ≡ get_value pkt' tlv
  unfolding get_value
  get_value-agree k = rw (l, get_len-agree k) refl

get_value_lem : (pkt : List ℕ) (tlv v : ℕ) → get_value pkt tlv ≡ some v → v ≡ tlv + generictlv_hdrsz
unfolding get_value
get_value_lem pkt tlv v e = ground (arith, e)

-- Two packets of the same length that agree on the header of a signature frame and on its two bytes of
-- kinds are the same to `signframe_tlvconstructor`, whatever lies behind their ends: it takes any
-- checksum.
pub checksum_ignored :
    (checksum_length : ℕ → ℕ) (pkt pkt' behind behind' : List ℕ) (tlv : ℕ)
    → length pkt ≡ length pkt'
    → ((i : ℕ) → tlv ≤ i → i < tlv + (generictlv_hdrsz + 2) → get_or pkt i 0 ≡ get_or pkt' i 0)
    → signframe_tlvconstructor checksum_length pkt behind tlv
      ≡ signframe_tlvconstructor checksum_length pkt' behind' tlv
unfolding signframe_tlvconstructor
checksum_ignored checksum_length pkt pkt' behind behind' tlv l h =
    let len : get_len pkt tlv ≡ get_len pkt' tlv = get_len-agree pkt pkt' tlv 7 l h (omega arith) in
    let value : get_value pkt tlv ≡ get_value pkt' tlv =
      get_value-agree pkt pkt' tlv 7 l h (omega arith) in
    let type : get_guint8 pkt (tlv + 5) ≡ get_guint8 pkt' (tlv + 5) =
      get_guint8-agree pkt pkt' tlv 7 l h (tlv + 5) (omega arith) (omega arith) in
    let kind : get_guint8 pkt (tlv + 5 + 1) ≡ get_guint8 pkt' (tlv + 5 + 1) =
      get_guint8-agree pkt pkt' tlv 7 l h (tlv + 5 + 1) (omega arith) (omega arith) in
    elim (Option-cases (get_value pkt' tlv)) [
      | inl x ↦ rw (len, value, x) refl
      | inr (v, x) ↦
          let place : v ≡ tlv + 5 = get_value_lem pkt' tlv v x in
          let at_five : get_value pkt' tlv ≡ some (tlv + 5) = rw place at x in
          simp (len, value, at_five, type, kind) refl
    ]
