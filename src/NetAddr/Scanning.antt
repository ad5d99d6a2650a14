-- ===== src/NetAddr/Scanning.antt =====
-- clientlib/netaddr.c: what the loop of `_netaddr_string_ipv4_new` makes of digits, dots and a colon.
use assimilation_official.Common.{
  ℕ, ℤ, suc, ◌+◌, ◌/◌, ◌%◌, ◌^◌, ◌<◌, ◌≤◌, ◌≡◌, refl, inl, inr, ap, ◌∙◌, true, false, Option, none,
  some, List, [], ◌∷◌, ◌++◌, length, drop, arith, leb, ltb, length-append, Bool-cases,
}
use assimilation_official.NetAddr.Strings.{
  dot, colon, digits, decimal, is_digit, atoi, atoi_loop, Marks, mark, scan,
}
use assimilation_official.NetAddr.Decimal.{
  AreDigits, Stops, digits-AreDigits, value-digits, atoi_loop-append,
}

mark-digit : (c j : ℕ) (marks : Marks) → is_digit c ≡ true → mark c j marks ≡ some marks
unfolding mark
mark-digit c j marks h = ground (arith, h)

-- Digits are gone over.
pub scan-digits :
    (s t : List ℕ) (j : ℕ) (marks : Marks)
    → AreDigits s
    → scan (s ++ t) j marks ≡ scan t (j + length s) marks
unfolding scan
scan-digits [] t j marks a = ap (λ k. scan t k marks) (omega arith)
scan-digits (c ∷ s) t j marks a =
    rw (mark-digit c j marks a.0, scan)
      (scan-digits s t (j + 1) marks a.1 ∙ ap (λ k. scan t k marks) (omega arith))

pub scan-end : (s : List ℕ) (j : ℕ) (marks : Marks) → AreDigits s → scan s j marks ≡ some marks
unfolding scan
scan-end [] j marks a = refl
scan-end (c ∷ s) j marks a = rw (mark-digit c j marks a.0, scan) (scan-end s (j + 1) marks a.1)

abbrev pub marks_of : List ℕ → Option ℕ → Marks
marks_of dotpositions colonpos = record { dotpositions = dotpositions; colonpos = colonpos }

-- So is a dot that follows digits, and its place is noted.
pub scan-dot :
    (s t : List ℕ) (j : ℕ) (dotpositions : List ℕ)
    → AreDigits s
    → length dotpositions < 3
    → scan (s ++ (dot ∷ t)) j (marks_of dotpositions none)
      ≡ scan t (j + length s + 1) (marks_of (dotpositions ++ ((j + length s) ∷ [])) none)
unfolding scan mark
scan-dot s t j dotpositions a l =
    let few : leb 3 (length dotpositions) ≡ false = ground arith in
    scan-digits s (dot ∷ t) j (marks_of dotpositions none) a ∙ rw (few, scan, mark) refl

pub scan-colon :
    (s t : List ℕ) (j : ℕ) (dotpositions : List ℕ)
    → AreDigits s
    → j + length s ≤ 21
    → scan (s ++ (colon ∷ t)) j (marks_of dotpositions none)
      ≡ scan t (j + length s + 1) (marks_of dotpositions (some (j + length s)))
unfolding scan mark
scan-colon s t j dotpositions a l =
    let early : ltb 21 (j + length s) ≡ false = ground arith in
    scan-digits s (colon ∷ t) j (marks_of dotpositions none) a ∙ rw (early, scan, mark) refl

-- What is behind the character that follows the digits.
pub drop-digits : (s t : List ℕ) (c k : ℕ) → drop (length s + 1 + k) (s ++ (c ∷ t)) ≡ drop k t
drop-digits [] t c k = let one : 0 + 1 + k ≡ suc k = omega arith in ap (λ i. drop i (c ∷ t)) one
drop-digits (x ∷ s) t c k =
    let one : length (x ∷ s) + 1 + k ≡ suc (length s + 1 + k) = omega arith in
    ap (λ i. drop i (x ∷ (s ++ (c ∷ t)))) one ∙ drop-digits s t c k

-- A number that is printed is read back, whatever follows it, as long as that is not a digit.
pub atoi_lem : (s : List ℕ) (n : ℕ) → atoi_loop s 0 ≡ n → n < 10 ^ 5 → atoi s ≡ ℤ.pos n
unfolding atoi
atoi_lem s n e h = rw (e, atoi) (ground arith)

pub atoi-decimal : (n : ℕ) (t : List ℕ) → n < 10 ^ 5 → Stops t → atoi (decimal n ++ t) ≡ ℤ.pos n
atoi-decimal n t h e =
    atoi_lem (decimal n ++ t) n
      (atoi_loop-append (decimal n) t 0 (digits-AreDigits 5 n) e ∙ value-digits 5 n h) h

pub length-decimal_pos : (n : ℕ) → 0 < length (decimal n)
unfolding digits
length-decimal_pos n = elim (Bool-cases (ltb n 10)) [
  | inl x ↦ rw x (omega arith)
  | inr x ↦ rw x (omega (arith, length-append (digits 4 (n / 10)) ((n % 10 + 48) ∷ [])))
]
