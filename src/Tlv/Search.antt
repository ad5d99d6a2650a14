-- ===== src/Tlv/Search.antt =====
-- What `find_next_generic_tlv_type` of clientlib/generic_tlv_min.c finds.
use assimilation_official.Common.{
  ℕ, suc, zero, ◌+◌, ◌≤◌, ◌<◌, ◌≡◌, refl, inl, inr, ◌≢◌, Option, none, some, List, length, arith,
  Option-cases,
}
use native.Mathlib.Decide.{dec_lt, ℕ_discrete}
use assimilation_official.Tlv.Generic.{get_type, generictlv_hdrsz, next, find_loop, find_next}

-- The entries that `get_generic_tlv_next` goes through from `tlv` on, up to the first of the type:
-- the search comes to it, or to the end of what it can go through.
pub data Finds (pkt : List ℕ) (tlvtype : ℕ) : Option ℕ → Option ℕ → Type 0 where
  ended : Finds pkt tlvtype none none
  outside : {tlv : ℕ} → length pkt < tlv + generictlv_hdrsz → Finds pkt tlvtype (some tlv) none
  here :
      {tlv : ℕ}
      → tlv + generictlv_hdrsz ≤ length pkt
      → get_type pkt tlv ≡ tlvtype
      → Finds pkt tlvtype (some tlv) (some tlv)
  later :
      {tlv : ℕ} {found : Option ℕ}
      → tlv + generictlv_hdrsz ≤ length pkt
      → get_type pkt tlv ≢ tlvtype
      → Finds pkt tlvtype (next pkt tlv) found
      → Finds pkt tlvtype (some tlv) found

-- The next entry is at least a header away.
next_beyond :
    (pkt : List ℕ) (tlv : ℕ) {tlv' : ℕ} → next pkt tlv ≡ some tlv' → tlv + generictlv_hdrsz ≤ tlv'
unfolding next
next_beyond pkt tlv e = ground arith

-- How much fuel a search from a place needs.
abbrev IsEnough : ℕ → List ℕ → Option ℕ → Type 0
IsEnough fuel pkt none = 0 < fuel
IsEnough fuel pkt (some tlv) = (0 < fuel) × (length pkt + 1 < tlv + fuel)

next-IsEnough :
    (fuel : ℕ) (pkt : List ℕ) (tlv : ℕ)
    → length pkt + 1 < tlv + suc fuel
    → tlv + generictlv_hdrsz ≤ length pkt
    → IsEnough fuel pkt (next pkt tlv)
next-IsEnough fuel pkt tlv h k = elim (Option-cases (next pkt tlv)) [
  | inl e ↦ rw e (omega arith)
  | inr (tlv', e) ↦ rw e (omega arith, omega (arith, next_beyond pkt tlv e))
]

find_loop-Finds :
    (fuel : ℕ) (pkt : List ℕ) (tlv : Option ℕ) (tlvtype : ℕ)
    → IsEnough fuel pkt tlv
    → (found : Option ℕ) × (find_loop fuel pkt tlv tlvtype ≡ some found)
      × Finds pkt tlvtype tlv found
unfolding find_loop
find_loop-Finds zero pkt none tlvtype h = absurd (omega arith)
find_loop-Finds zero pkt (some tlv) tlvtype h = absurd (omega (arith, h.0))
find_loop-Finds (suc fuel) pkt none tlvtype h = (none, refl, ended)
find_loop-Finds (suc fuel) pkt (some tlv) tlvtype h =
    elim (dec_lt (length pkt) (tlv + generictlv_hdrsz)) [
      | yes k ↦ (none, ground arith, outside k)
      | no k ↦ elim (ℕ_discrete (get_type pkt tlv) tlvtype) [
        | yes e ↦ (some tlv, ground arith, here (omega arith) e)
        | no e ↦
            let (found, r, f) =
              find_loop-Finds fuel pkt (next pkt tlv) tlvtype
                (next-IsEnough fuel pkt tlv h.1 (omega arith)) in
            (found, ground (arith, r), later (omega arith) e f)
      ]
    ]

-- The search ends on every packet, however malformed, at the first entry of the type among those
-- that `get_generic_tlv_next` goes through, or with NULL where there is none.
pub find_next-Finds :
    (pkt : List ℕ) (tlv : Option ℕ) (tlvtype : ℕ)
    → (found : Option ℕ) × (find_next pkt tlv tlvtype ≡ some found) × Finds pkt tlvtype tlv found
unfolding find_next
find_next-Finds pkt none tlvtype =
    find_loop-Finds (suc (suc (length pkt))) pkt none tlvtype (omega arith)
find_next-Finds pkt (some tlv) tlvtype =
    find_loop-Finds (suc (suc (length pkt))) pkt (some tlv) tlvtype (omega arith, omega arith)

-- What is found has its header inside of the packet, and the type looked for.
Finds-inside :
    (pkt : List ℕ) (tlvtype : ℕ) {tlv : Option ℕ} {p : ℕ}
    → Finds pkt tlvtype tlv (some p)
    → (p + generictlv_hdrsz ≤ length pkt) × (get_type pkt p ≡ tlvtype)
Finds-inside pkt tlvtype (here h e) = (h, e)
Finds-inside pkt tlvtype (later h e f) = Finds-inside pkt tlvtype f
