-- ===== src/Tlv/Integers.antt =====
-- Integer frames of clientlib/intframe.c come out of a packet as they went in.
use assimilation_official.Common.{
  ℕ, ◌+◌, ◌^◌, ◌≤◌, ◌<◌, ◌≡◌, ◌⊎◌, inl, inr, ◌∙◌, true, some, List, length, arith,
}
use mathlib.Core.Path.{subst}
use assimilation_official.Tlv.Roundtrip.{
  get_guint16-set_guint16, get_guint32-set_guint32, get_guint64-set_guint64, get_guint8-set_guint8,
}
use assimilation_official.Tlv.Untouched.{
  SameBytes, set_guint8-SameBytes, set_guint16-SameBytes, set_guint24-SameBytes,
  set_guint32-SameBytes, set_guint64-SameBytes, get_guint24-set_guint24,
}
use assimilation_official.Tlv.Generic.{get_type, get_len, get_value, get_nonconst_value}
use assimilation_official.Tlv.Frames.{
  append_header, IntFrame, is_intlength, setint, int_put, int_updatedata, int_value,
  int_tlvconstructor,
}
use assimilation_official.Tlv.Marshal.{
  length-append_header, get_len-append_header, get_type-append_header, get_len-agree,
  get_type-agree,
}

-- The five lengths of an integer frame.
five_lengths : (n : ℕ) → is_intlength n ≡ true → (n ≡ 1) ⊎ (n ≡ 2) ⊎ (n ≡ 3) ⊎ (n ≡ 4) ⊎ (n ≡ 8)
unfolding is_intlength
five_lengths n h = ground arith

-- A frame within its limits.
pub record IsIntFrame (self : IntFrame) : Type 0 where
  pub supported : is_intlength self.length ≡ true
  pub limited : self.value < 256 ^ self.length
  pub typed : self.type < 2 ^ 16

setint-same :
    (self : IntFrame) (value : ℕ)
    → is_intlength self.length ≡ true
    → value < 256 ^ self.length
    → setint self value ≡ record self { value = value }
unfolding setint
setint-same self value h v =
    let fits : (n : ℕ) → self.length ≡ n → value < 256 ^ n =
      λ n e. subst (λ k. value < 256 ^ k) e v in
    elim (five_lengths self.length h) [
      | inl e ↦ ground (arith, fits 1 e)
      | inr (inl e) ↦ ground (arith, fits 2 e)
      | inr (inr (inl e)) ↦ ground (arith, fits 3 e)
      | inr (inr (inr (inl e))) ↦ ground (arith, fits 4 e)
      | inr (inr (inr (inr e))) ↦ ground (arith, fits 8 e)
    ]

module _ (self : IntFrame) (v : IsIntFrame self) (pkt : List ℕ) (at : ℕ) where
  fits_length : (n : ℕ) → self.length ≡ n → self.value < 256 ^ n
  fits_length n e = subst (λ k. self.value < 256 ^ k) e v.limited

  int_put-SameBytes : (n from : ℕ) → from + n ≤ at → SameBytes n from (int_put self pkt at) pkt
  unfolding int_put
  int_put-SameBytes n from h = elim (five_lengths self.length v.supported) [
    | inl e ↦ rw e (set_guint8-SameBytes n from pkt at self.value (inl h))
    | inr (inl e) ↦ rw e (set_guint16-SameBytes n from pkt at self.value (inl h))
    | inr (inr (inl e)) ↦ rw e (set_guint24-SameBytes n from pkt at self.value (inl h))
    | inr (inr (inr (inl e))) ↦ rw e (set_guint32-SameBytes n from pkt at self.value (inl h))
    | inr (inr (inr (inr e))) ↦ rw e (set_guint64-SameBytes n from pkt at self.value (inl h))
  ]

  int_value-int_put :
      at + self.length ≤ length pkt → int_value (int_put self pkt at) at self.length ≡ self.value
  unfolding int_put int_value
  int_value-int_put h = elim (five_lengths self.length v.supported) [
    | inl e ↦ rw e (get_guint8-set_guint8 pkt at self.value (omega arith) (fits_length 1 e))
    | inr (inl e) ↦ rw e (get_guint16-set_guint16 pkt at self.value (omega arith) (fits_length 2 e))
    | inr (inr (inl e)) ↦
        rw e (get_guint24-set_guint24 pkt at self.value (omega arith) (fits_length 3 e))
    | inr (inr (inr (inl e))) ↦
        rw e (get_guint32-set_guint32 pkt at self.value (omega arith) (fits_length 4 e))
    | inr (inr (inr (inr e))) ↦
        rw e (get_guint64-set_guint64 pkt at self.value (omega arith) (fits_length 8 e))
  ]

is_intlength_bound : (n : ℕ) → is_intlength n ≡ true → (0 < n) × (n ≤ 8)
is_intlength_bound n h = ground (arith, five_lengths n h)

-- An integer frame of a supported length, within its limit, that is written behind its header into a
-- packet with room for it is read back.
pub int_tlvconstructor-int_updatedata :
    (self : IntFrame) (pkt : List ℕ) (tlv : ℕ)
    → IsIntFrame self
    → tlv + 5 + self.length ≤ length pkt
    → int_tlvconstructor (int_updatedata self (append_header pkt tlv self.type self.length) tlv) tlv
      ≡ some self
unfolding int_tlvconstructor int_updatedata get_value get_nonconst_value
int_tlvconstructor-int_updatedata self pkt tlv v room =
    let pkt0 : List ℕ = append_header pkt tlv self.type self.length in
    let bound = is_intlength_bound self.length v.supported in
    let size : length pkt0 ≡ length pkt = length-append_header pkt tlv self.type self.length in
    let same = int_put-SameBytes self v pkt0 (tlv + 5) 5 tlv (omega arith) in
    let pkt1 : List ℕ = int_put self pkt0 (tlv + 5) in
    let len : get_len pkt1 tlv ≡ self.length =
      get_len-agree pkt1 pkt0 tlv same
      ∙ get_len-append_header pkt tlv self.type self.length room (omega arith) in
    let ty : get_type pkt1 tlv ≡ self.type =
      get_type-agree pkt1 pkt0 tlv same
      ∙ get_type-append_header pkt tlv self.type self.length (omega arith) v.typed in
    let val = int_value-int_put self v pkt0 (tlv + 5) (omega (arith, size)) in
    ground (
      arith,
      len,
      ty,
      val,
      size,
      same.size,
      bound,
      v.supported,
      setint-same (record { type = self.type; length = self.length; value = 0 }) self.value
          v.supported v.limited,
    )
