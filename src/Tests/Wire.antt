-- ===== src/Tests/Wire.antt =====
-- clientlib/tlvhelper.c, clientlib/generic_tlv_min.c and the integer frames on small packets.
use assimilation_official.Common.{
  ℕ, ◌≡◌, refl, ◌↔◌, ◌≢◌, true, Option, none, some, List, [], ◌∷◌, arith, replicate,
}
use assimilation_official.Seqno.{Seqno}
use assimilation_official.Tlv.Bytes.{get_guint16, get_bytes, get_guint24, to_bytes}
use assimilation_official.Tlv.Generic.{is_valid, find_next, first, valid_loop, get_type, get_len}
use assimilation_official.Tlv.Valid.{IsAccepted, is_valid_iff, is_valid_total}
use assimilation_official.Tlv.Search.{Finds, find_next-Finds}
use assimilation_official.Tlv.Frames.{
  append_header, seqno_size, seqno_updatedata, seqno_tlvconstructor, IntFrame, int_updatedata,
  int_tlvconstructor, is_intlength,
}
use assimilation_official.Tlv.Marshal.{seqno_tlvconstructor-seqno_updatedata}
use assimilation_official.Tlv.Integers.{IsIntFrame, int_tlvconstructor-int_updatedata}

abbrev blank : List ℕ
blank = replicate 24 0

-- A SIG entry of one byte and an END entry.
abbrev signed : List ℕ
signed = 0 ∷ 1 ∷ 0 ∷ 0 ∷ 1 ∷ 9 ∷ 0 ∷ 0 ∷ 0 ∷ 0 ∷ 0 ∷ []

signed_valid : is_valid signed ≡ some true
unfolding is_valid first valid_loop get_type get_len get_guint16 get_guint24 get_bytes
signed_valid = refl

-- A packet whose first entry claims seven bytes, and has none.
abbrev overrun : List ℕ
overrun = 0 ∷ 1 ∷ 0 ∷ 0 ∷ 7 ∷ []

overrun_valid : is_valid overrun ≡ some true
unfolding is_valid first valid_loop get_type get_len get_guint16 get_guint24 get_bytes
overrun_valid = refl

big_endian : to_bytes 3 66051 ≡ (1 ∷ 2 ∷ 3 ∷ [])
unfolding to_bytes
big_endian = refl

is_valid_iff_example : (is_valid signed ≡ some true) ↔ IsAccepted signed
is_valid_iff_example = is_valid_iff signed

is_valid_total_example : is_valid overrun ≢ none
is_valid_total_example = is_valid_total overrun

find_next-Finds_example :
    (found : Option ℕ) × (find_next signed (some 0) 0 ≡ some found) × Finds signed 0 (some 0) found
find_next-Finds_example = find_next-Finds signed (some 0) 0

abbrev request : Seqno
request = record { sessionid = 300; reqid = 70000; qid = 2 }

seqno_tlvconstructor-seqno_updatedata_example :
    seqno_tlvconstructor (seqno_updatedata request (append_header blank 3 9 seqno_size) 3) 3
    ≡ some request
seqno_tlvconstructor-seqno_updatedata_example =
    seqno_tlvconstructor-seqno_updatedata request blank 3 9 (omega arith) (omega arith)
      (omega arith) (omega arith)

abbrev port : IntFrame
port = record { type = 20; length = 3; value = 66051 }

port-IsIntFrame : IsIntFrame port
unfolding is_intlength
port-IsIntFrame = record { supported = refl; limited = omega arith; typed = omega arith }

int_tlvconstructor-int_updatedata_example :
    int_tlvconstructor (int_updatedata port (append_header blank 4 20 3) 4) 4 ≡ some port
int_tlvconstructor-int_updatedata_example =
    int_tlvconstructor-int_updatedata port blank 4 port-IsIntFrame (omega arith)
