-- ===== src/NetAddr/Decimal.antt =====
-- Numbers that clientlib/netaddr.c prints in decimal are read back by `atoi`.
use assimilation_official.Common.{
  ℕ, zero, suc, ◌+◌, ◌-◌, ◌*◌, ◌/◌, ◌%◌, ◌^◌, ◌<◌, ◌≤◌, ◌≡◌, refl, inl, inr, true, false, List, [],
  ◌∷◌, ◌++◌, All, length, arith, ltb, length-append, Bool-cases,
}
use assimilation_official.NetAddr.Strings.{digits, is_digit, atoi_loop}

abbrev pub AreDigits : List ℕ → Type 0
AreDigits s = All (λ c. is_digit c ≡ true) s

-- The string does not go on with a digit.
abbrev pub Stops : List ℕ → Type 0
Stops [] = Unit
Stops (c ∷ s) = is_digit c ≡ false

AreDigits-snoc : (s : List ℕ) (c : ℕ) → AreDigits s → is_digit c ≡ true → AreDigits (s ++ (c ∷ []))
AreDigits-snoc [] c a d = (d, tt)
AreDigits-snoc (x ∷ s) c a d = (a.0, AreDigits-snoc s c a.1 d)

pub digits-AreDigits : (size n : ℕ) → AreDigits (digits size n)
unfolding digits
digits-AreDigits zero n = tt
digits-AreDigits (suc size) n =
    let last : is_digit (n % 10 + 48) ≡ true = ground arith in
    elim (Bool-cases (ltb n 10)) [
      | inl x ↦ let only : is_digit (n + 48) ≡ true = ground (arith, x) in rw x (only, tt)
      | inr x ↦ rw x (
          AreDigits-snoc (digits size (n / 10)) (n % 10 + 48) (digits-AreDigits size (n / 10)) last)
    ]

-- The number that a string of digits is, behind the one that is read already.
abbrev pub value : List ℕ → ℕ → ℕ
value [] n = n
value (c ∷ s) n = value s (n * 10 + (c - 48))

value-snoc : (s : List ℕ) (c n : ℕ) → value (s ++ (c ∷ [])) n ≡ value s n * 10 + (c - 48)
value-snoc [] c n = refl
value-snoc (x ∷ s) c n = value-snoc s c (n * 10 + (x - 48))

pub value-digits : (size n : ℕ) → n < 10 ^ size → value (digits size n) 0 ≡ n
unfolding digits
value-digits zero n h = omega arith
value-digits (suc size) n h = elim (Bool-cases (ltb n 10)) [
  | inl x ↦ rw x (omega arith)
  | inr x ↦ rw x (
      omega (
        arith,
        value-snoc (digits size (n / 10)) (n % 10 + 48) 0,
        value-digits size (n / 10) (omega arith),
      ))
]

pub length-digits : (size n k : ℕ) → n < 10 ^ suc k → length (digits size n) ≤ suc k
unfolding digits
length-digits zero n k h = omega arith
length-digits (suc size) n zero h = let x : ltb n 10 ≡ true = ground arith in rw x (omega arith)
length-digits (suc size) n (suc k) h = elim (Bool-cases (ltb n 10)) [
  | inl x ↦ rw x (omega arith)
  | inr x ↦ rw x (
      omega (
        arith,
        length-append (digits size (n / 10)) ((n % 10 + 48) ∷ []),
        length-digits size (n / 10) k (omega arith),
      ))
]

pub atoi_loop-append :
    (s t : List ℕ) (n : ℕ) → AreDigits s → Stops t → atoi_loop (s ++ t) n ≡ value s n
unfolding atoi_loop
atoi_loop-append [] [] n a h = refl
atoi_loop-append [] (c ∷ t) n a h = rw h refl
atoi_loop-append (c ∷ s) t n a h = rw a.0 (atoi_loop-append s t (n * 10 + (c - 48)) a.1 h)

pub atoi_loop-value : (s : List ℕ) (n : ℕ) → AreDigits s → atoi_loop s n ≡ value s n
unfolding atoi_loop
atoi_loop-value [] n a = refl
atoi_loop-value (c ∷ s) n a = rw a.0 (atoi_loop-value s (n * 10 + (c - 48)) a.1)
