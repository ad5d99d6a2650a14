-- ===== src/Seqno/Order.antt =====
-- What `_seqnoframe_compare` and `_seqnoframe_equal` decide (clientlib/seqnoframe.c).
use assimilation_official.Common.{◌<◌, ◌≡◌, ◌↔◌, ◌⊎◌, inl, inr, sym, true, arith}
use assimilation_official.Seqno.{Seqno, lt, eq, gt, compare, equal}
use native.Mathlib.Decide.{dec_lt}

-- Lexicographic order of the session and the request.
abbrev Before : Seqno → Seqno → Type 0
Before a b = (a.sessionid < b.sessionid) ⊎ ((a.sessionid ≡ b.sessionid) × (a.reqid < b.reqid))

compare-lt_iff : (a b : Seqno) → (compare a b ≡ lt) ↔ Before a b
unfolding compare
compare-lt_iff a b = ground arith

compare-gt_iff : (a b : Seqno) → (compare a b ≡ gt) ↔ Before b a
unfolding compare
compare-gt_iff a b = ground arith

compare-eq_iff :
    (a b : Seqno) → (compare a b ≡ eq) ↔ ((a.sessionid ≡ b.sessionid) × (a.reqid ≡ b.reqid))
unfolding compare
compare-eq_iff a b = ground arith

-- Within one session the comparison is that of the request numbers.
pub compare_cases :
    (a b : Seqno)
    → a.sessionid ≡ b.sessionid
    → ((compare a b ≡ lt) × (a.reqid < b.reqid))
      ⊎ ((compare a b ≡ eq) × (a.reqid ≡ b.reqid))
      ⊎ ((compare a b ≡ gt) × (b.reqid < a.reqid))
compare_cases a b h = elim (dec_lt a.reqid b.reqid) [
  | yes p ↦ inl ((compare-lt_iff a b).1 (inr (h, p)), p)
  | no p ↦ elim (dec_lt b.reqid a.reqid) [
    | yes q ↦ inr (inr ((compare-gt_iff a b).1 (inr (sym h, q)), q))
    | no q ↦ inr (inl ((compare-eq_iff a b).1 (h, omega arith), omega arith))
  ]
]

-- `_seqnoframe_equal` is equality of all three numbers.
pub equal_iff : (a b : Seqno) → (equal a b ≡ true) ↔ (a ≡ b)
unfolding equal compare
equal_iff a b = ground arith
