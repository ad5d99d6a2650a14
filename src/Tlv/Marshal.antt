-- ===== src/Tlv/Marshal.antt =====
-- Frames of clientlib/seqnoframe.c and clientlib/intframe.c come out of a packet as they went in.
use assimilation_official.Common.{
  ℕ, ◌+◌, ◌^◌, ◌≤◌, ◌<◌, ◌≡◌, refl, inl, ◌∙◌, some, List, length, arith,
}
use assimilation_official.Seqno.{Seqno}
use assimilation_official.Tlv.Bytes.{
  get_guint16, get_guint32, get_guint64, set_guint16, set_guint32, set_guint64,
}
use assimilation_official.Tlv.Roundtrip.{
  length-set_guint16, length-set_guint24, length-set_guint32, length-set_guint64,
  get_guint16-set_guint16, get_guint32-set_guint32, get_guint64-set_guint64,
}
use assimilation_official.Tlv.Untouched.{
  SameBytes, SameBytes-trans, set_guint16-SameBytes, set_guint24-SameBytes, set_guint32-SameBytes,
  set_guint64-SameBytes, get_guint16-agree, get_guint24-agree, get_guint32-agree, get_guint64-agree,
  get_guint24-set_guint24,
}
use assimilation_official.Tlv.Generic.{get_type, get_len, get_value, get_nonconst_value}
use assimilation_official.Tlv.Frames.{
  append_header, seqno_size, seqno_updatedata, seqno_tlvconstructor,
}

pub length-append_header :
    (pkt : List ℕ) (tlv type size : ℕ) → length (append_header pkt tlv type size) ≡ length pkt
unfolding append_header
length-append_header pkt tlv type size =
    length-set_guint24 (set_guint16 pkt tlv type) (tlv + 2) size ∙ length-set_guint16 pkt tlv type

-- The header that was put in front of a frame of `size` bytes is read back.
pub get_len-append_header :
    (pkt : List ℕ) (tlv type size : ℕ)
    → tlv + 5 + size ≤ length pkt
    → size < 2 ^ 24
    → get_len (append_header pkt tlv type size) tlv ≡ size
unfolding get_len append_header
get_len-append_header pkt tlv type size h v = ground (
  arith,
  length-append_header pkt tlv type size,
  length-set_guint16 pkt tlv type,
  length-set_guint24 (set_guint16 pkt tlv type) (tlv + 2) size,
  get_guint24-set_guint24 (set_guint16 pkt tlv type) (tlv + 2) size,
)

pub get_type-append_header :
    (pkt : List ℕ) (tlv type size : ℕ)
    → tlv + 5 ≤ length pkt
    → type < 2 ^ 16
    → get_type (append_header pkt tlv type size) tlv ≡ type
unfolding get_type append_header
get_type-append_header pkt tlv type size h v =
    get_guint16-agree _ _ tlv
      (set_guint24-SameBytes 2 tlv (set_guint16 pkt tlv type) (tlv + 2) size (omega arith))
    ∙ get_guint16-set_guint16 pkt tlv type (omega arith) v

-- The part of a header that its length is in.
pub get_len-agree :
    (pkt pkt' : List ℕ) (tlv : ℕ) → SameBytes 5 tlv pkt pkt' → get_len pkt tlv ≡ get_len pkt' tlv
unfolding get_len
get_len-agree pkt pkt' tlv h =
    let part : SameBytes 3 (tlv + 2) pkt pkt' = record {
      size = h.size;
      bytes = λ i p q. h.bytes i (omega arith) (omega arith);
    } in
    rw (get_guint24-agree pkt pkt' (tlv + 2) part, h.size) refl

pub get_type-agree :
    (pkt pkt' : List ℕ) (tlv : ℕ) → SameBytes 5 tlv pkt pkt' → get_type pkt tlv ≡ get_type pkt' tlv
unfolding get_type
get_type-agree pkt pkt' tlv h =
    get_guint16-agree pkt pkt' tlv
      (record { size = h.size; bytes = λ i p q. h.bytes i p (omega arith) })

-- The three fields of a sequence number, written one after the other.
module _ (self : Seqno) (pkt : List ℕ) (at : ℕ) (room : at + seqno_size ≤ length pkt) where
  abbrev written : List ℕ
  written =
      set_guint16 (set_guint64 (set_guint32 pkt at self.sessionid) (at + 4) self.reqid) (at + 4 + 8)
        self.qid

  abbrev one : List ℕ
  one = set_guint32 pkt at self.sessionid

  abbrev two : List ℕ
  two = set_guint64 one (at + 4) self.reqid

  length-one : length one ≡ length pkt
  length-one = length-set_guint32 pkt at self.sessionid

  length-two : length two ≡ length pkt
  length-two = length-set_guint64 one (at + 4) self.reqid ∙ length-one

  length-written : length written ≡ length pkt
  length-written = length-set_guint16 two (at + 4 + 8) self.qid ∙ length-two

  written_before : (n from : ℕ) → from + n ≤ at → SameBytes n from written pkt
  written_before n from h =
      SameBytes-trans n from (set_guint16-SameBytes n from two (at + 4 + 8) self.qid (omega arith))
        (SameBytes-trans n from (set_guint64-SameBytes n from one (at + 4) self.reqid (omega arith))
          (set_guint32-SameBytes n from pkt at self.sessionid (inl h)))

  written_sessionid : self.sessionid < 2 ^ 32 → get_guint32 written at ≡ self.sessionid
  written_sessionid v =
      get_guint32-agree written one at (
        SameBytes-trans 4 at (set_guint16-SameBytes 4 at two (at + 4 + 8) self.qid (omega arith))
          (set_guint64-SameBytes 4 at one (at + 4) self.reqid (omega arith)))
      ∙ get_guint32-set_guint32 pkt at self.sessionid (omega arith) v

  written_reqid : self.reqid < 2 ^ 64 → get_guint64 written (at + 4) ≡ self.reqid
  written_reqid v =
      get_guint64-agree written two (at + 4)
        (set_guint16-SameBytes 8 (at + 4) two (at + 4 + 8) self.qid (omega arith))
      ∙ get_guint64-set_guint64 one (at + 4) self.reqid (omega (arith, length-one)) v

  written_qid : self.qid < 2 ^ 16 → get_guint16 written (at + 4 + 8) ≡ self.qid
  written_qid v = get_guint16-set_guint16 two (at + 4 + 8) self.qid (omega (arith, length-two)) v

-- A sequence number frame that is written behind its header into a packet with room for it is read
-- back, for fields within their widths.
pub seqno_tlvconstructor-seqno_updatedata :
    (self : Seqno) (pkt : List ℕ) (tlv type : ℕ)
    → tlv + 5 + seqno_size ≤ length pkt
    → self.sessionid < 2 ^ 32
    → self.reqid < 2 ^ 64
    → self.qid < 2 ^ 16
    → seqno_tlvconstructor (seqno_updatedata self (append_header pkt tlv type seqno_size) tlv) tlv
      ≡ some self
unfolding seqno_tlvconstructor seqno_updatedata get_value get_nonconst_value
seqno_tlvconstructor-seqno_updatedata self pkt tlv type room vs vr vq =
    let pkt0 : List ℕ = append_header pkt tlv type seqno_size in
    let size : length pkt0 ≡ length pkt = length-append_header pkt tlv type seqno_size in
    let room0 : tlv + 5 + seqno_size ≤ length pkt0 = omega (arith, size) in
    let len : get_len (written self pkt0 (tlv + 5) room0) tlv ≡ seqno_size =
      get_len-agree _ pkt0 tlv (written_before self pkt0 (tlv + 5) room0 5 tlv (omega arith))
      ∙ get_len-append_header pkt tlv type seqno_size room (omega arith) in
    ground (
      arith,
      len,
      size,
      length-written self pkt0 (tlv + 5) room0,
      written_sessionid self pkt0 (tlv + 5) room0 vs,
      written_reqid self pkt0 (tlv + 5) room0 vr,
      written_qid self pkt0 (tlv + 5) room0 vq,
    )
