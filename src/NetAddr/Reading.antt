-- ===== src/NetAddr/Reading.antt =====
-- clientlib/netaddr.c: an IPv4 address is read back from its string.
use assimilation_official.Common.{
  ℕ, ℤ, leqz, ◌%◌, ◌+◌, ◌<◌, ◌≡◌, refl, inl, inr, sym, ap, ◌∙◌, Bool, true, false, none, some, List,
  [], ◌∷◌, ◌++◌, map, length, drop, arith, ltb, ◌==◌, length-append, Bool-cases, to_unsigned,
}
use mathlib.Core.Path.{subst}
use assimilation_official.NetAddr.{ipv4_new}
use assimilation_official.NetAddr.Strings.{
  dot, colon, decimal, to_stringflex, atoi, scan, are_bytes, string_ipv4_new,
}
use assimilation_official.NetAddr.Decimal.{
  Stops, digits-AreDigits, value-digits, length-digits, atoi_loop-value,
}
use assimilation_official.NetAddr.Scanning.{
  scan-digits, scan-end, marks_of, scan-dot, scan-colon, drop-digits, length-decimal_pos,
  atoi-decimal, atoi_lem,
}

low_byte : (n : ℕ) → n < 256 → n % 256 ≡ n
low_byte n h = omega arith

-- Where the dots of an address are, and what is behind them.
module _ (b0 b1 b2 b3 : ℕ) (tail : List ℕ) where
  abbrev fourth : List ℕ
  fourth = decimal b3 ++ tail

  abbrev third : List ℕ
  third = decimal b2 ++ (dot ∷ fourth)

  abbrev second : List ℕ
  second = decimal b1 ++ (dot ∷ third)

  abbrev whole : List ℕ
  whole = decimal b0 ++ (dot ∷ second)

  abbrev dot0 : ℕ
  dot0 = 0 + length (decimal b0)

  abbrev dot1 : ℕ
  dot1 = dot0 + 1 + length (decimal b1)

  abbrev dot2 : ℕ
  dot2 = dot1 + 1 + length (decimal b2)

  scan-whole :
      scan whole 0 (marks_of [] none)
      ≡ scan fourth (dot2 + 1) (marks_of (dot0 ∷ dot1 ∷ dot2 ∷ []) none)
  scan-whole =
      scan-dot (decimal b0) second 0 [] (digits-AreDigits 5 b0) (omega arith)
      ∙ scan-dot (decimal b1) third (dot0 + 1) (dot0 ∷ []) (digits-AreDigits 5 b1) (omega arith)
      ∙ scan-dot (decimal b2) fourth (dot1 + 1) (dot0 ∷ dot1 ∷ []) (digits-AreDigits 5 b2)
          (omega arith)

  drop-second : drop (dot0 + 1) whole ≡ second
  drop-second =
      let at : dot0 + 1 ≡ length (decimal b0) + 1 + 0 = omega arith in
      ap (λ k. drop k whole) at ∙ drop-digits (decimal b0) second dot 0

  drop-third : drop (dot1 + 1) whole ≡ third
  drop-third =
      let at : dot1 + 1 ≡ length (decimal b0) + 1 + (length (decimal b1) + 1 + 0) = omega arith in
      ap (λ k. drop k whole) at
      ∙ drop-digits (decimal b0) second dot (length (decimal b1) + 1 + 0)
      ∙ drop-digits (decimal b1) third dot 0

  drop-behind : (k : ℕ) → drop (dot2 + 1 + k) whole ≡ drop k fourth
  drop-behind k =
      let at : dot2 + 1 + k
          ≡ length (decimal b0) + 1 + (length (decimal b1) + 1 + (length (decimal b2) + 1 + k)) =
        omega arith in
      ap (λ k. drop k whole) at
      ∙ drop-digits (decimal b0) second dot
          (length (decimal b1) + 1 + (length (decimal b2) + 1 + k))
      ∙ drop-digits (decimal b1) third dot (length (decimal b2) + 1 + k)
      ∙ drop-digits (decimal b2) fourth dot k

  drop-fourth : drop (dot2 + 1) whole ≡ fourth
  drop-fourth =
      let at : dot2 + 1 ≡ dot2 + 1 + 0 = omega arith in ap (λ k. drop k whole) at ∙ drop-behind 0

  abbrev AreBytes : Type 0
  AreBytes = (b0 < 256) × (b1 < 256) × (b2 < 256) × (b3 < 256)

  addresses-whole :
      AreBytes
      → Stops tail
      → (atoi whole ∷ map (λ pos. atoi (drop (pos + 1) whole)) (dot0 ∷ dot1 ∷ dot2 ∷ []))
        ≡ (ℤ.pos b0 ∷ ℤ.pos b1 ∷ ℤ.pos b2 ∷ ℤ.pos b3 ∷ [])
  addresses-whole b e =
      rw
        (
          drop-second,
          drop-third,
          drop-fourth,
          atoi-decimal b0 (dot ∷ second) (omega (arith, b)) refl,
          atoi-decimal b1 (dot ∷ third) (omega (arith, b)) refl,
          atoi-decimal b2 (dot ∷ fourth) (omega (arith, b)) refl,
          atoi-decimal b3 tail (omega (arith, b)) e,
        )
        refl

  bytes-whole :
      AreBytes
      → Stops tail
      → map
          (to_unsigned 8)
          (atoi whole ∷ map (λ pos. atoi (drop (pos + 1) whole)) (dot0 ∷ dot1 ∷ dot2 ∷ []))
        ≡ (b0 ∷ b1 ∷ b2 ∷ b3 ∷ [])
  bytes-whole b e =
      ap (map (to_unsigned 8)) (addresses-whole b e)
      ∙ rw (low_byte b0 b.0, low_byte b1 b.1, low_byte b2 b.2, low_byte b3 b.3) refl

  are_bytes_lem : AreBytes → are_bytes (ℤ.pos b0 ∷ ℤ.pos b1 ∷ ℤ.pos b2 ∷ ℤ.pos b3 ∷ []) ≡ true
  unfolding are_bytes
  are_bytes_lem b = ground (arith, b)

-- The end of the string: no port, or one.
module _ (b0 b1 b2 b3 : ℕ) (b : AreBytes b0 b1 b2 b3 []) where
  abbrev body : List ℕ
  body = b0 ∷ b1 ∷ b2 ∷ b3 ∷ []

  scan-plain :
      scan (whole b0 b1 b2 b3 []) 0 (marks_of [] none)
      ≡ some (marks_of (dot0 b0 b1 b2 b3 [] ∷ dot1 b0 b1 b2 b3 [] ∷ dot2 b0 b1 b2 b3 [] ∷ []) none)
  unfolding scan
  scan-plain = scan-whole b0 b1 b2 b3 [] ∙ scan-digits (decimal b3) [] _ _ (digits-AreDigits 5 b3)

  string-plain : string_ipv4_new (whole b0 b1 b2 b3 []) ≡ some (ipv4_new body 0)
  unfolding string_ipv4_new
  string-plain =
      rw
        (
          string_ipv4_new,
          scan-plain,
          addresses-whole b0 b1 b2 b3 [] b tt,
          are_bytes_lem b0 b1 b2 b3 [] b,
          bytes-whole b0 b1 b2 b3 [] b tt,
        )
        refl

  module _ (port : ℕ) (p : port < 65536) where
    abbrev ending : List ℕ
    ending = colon ∷ decimal port

    abbrev place : ℕ
    place = dot2 b0 b1 b2 b3 ending + 1 + length (decimal b3)

    scan-port :
        scan (whole b0 b1 b2 b3 ending) 0 (marks_of [] none)
        ≡ some (
            marks_of
              (dot0 b0 b1 b2 b3 ending ∷ dot1 b0 b1 b2 b3 ending ∷ dot2 b0 b1 b2 b3 ending ∷ [])
              (some place))
    scan-port =
        scan-whole b0 b1 b2 b3 ending
        ∙ scan-colon (decimal b3) (decimal port) _ _ (digits-AreDigits 5 b3) (
            omega (
              arith,
              length-digits 5 b0 2 (omega (arith, b)),
              length-digits 5 b1 2 (omega (arith, b)),
              length-digits 5 b2 2 (omega (arith, b)),
              length-digits 5 b3 2 (omega (arith, b)),
            ))
        ∙ scan-end (decimal port) _ _ (digits-AreDigits 5 port)

    port-read : atoi (drop (place + 1) (whole b0 b1 b2 b3 ending)) ≡ ℤ.pos port
    port-read =
        let at : place + 1 ≡ dot2 b0 b1 b2 b3 ending + 1 + (length (decimal b3) + 1 + 0) =
          omega arith in
        let behind : drop (place + 1) (whole b0 b1 b2 b3 ending) ≡ decimal port =
          ap (λ k. drop k (whole b0 b1 b2 b3 ending)) at
          ∙ drop-behind b0 b1 b2 b3 ending (length (decimal b3) + 1 + 0)
          ∙ drop-digits (decimal b3) (decimal port) colon 0 in
        ap (λ s. atoi s) behind
        ∙ atoi_lem (decimal port) port
            (atoi_loop-value (decimal port) 0 (digits-AreDigits 5 port)
              ∙ value-digits 5 port (omega arith))
            (omega arith)

    room : ltb (length (whole b0 b1 b2 b3 ending)) (place + 2) ≡ false
    room = ground (
      arith,
      length-append (decimal b0) (dot ∷ second b0 b1 b2 b3 ending),
      length-append (decimal b1) (dot ∷ third b0 b1 b2 b3 ending),
      length-append (decimal b2) (dot ∷ fourth b0 b1 b2 b3 ending),
      length-append (decimal b3) ending,
      length-decimal_pos port,
    )

    string-port : string_ipv4_new (whole b0 b1 b2 b3 ending) ≡ some (ipv4_new body port)
    unfolding string_ipv4_new
    string-port =
        let small : leqz (ℤ.pos port) (ℤ.pos 65535) ≡ true = ground arith in
        let low : port % 65536 ≡ port = omega arith in
        rw
          (
            string_ipv4_new,
            scan-port,
            addresses-whole b0 b1 b2 b3 ending b refl,
            are_bytes_lem b0 b1 b2 b3 ending b,
            bytes-whole b0 b1 b2 b3 ending b refl,
            port-read,
            room,
            small,
            low,
          )
          refl

-- An IPv4 address of four bytes with a port of 16 bits is read back from its string, in either
-- format.
pub string_ipv4_new-to_stringflex :
    (b0 b1 b2 b3 port : ℕ) (canon_format : Bool)
    → b0 < 256
    → b1 < 256
    → b2 < 256
    → b3 < 256
    → port < 65536
    → string_ipv4_new (to_stringflex (ipv4_new (b0 ∷ b1 ∷ b2 ∷ b3 ∷ []) port) canon_format)
      ≡ some (ipv4_new (b0 ∷ b1 ∷ b2 ∷ b3 ∷ []) port)
unfolding to_stringflex
string_ipv4_new-to_stringflex b0 b1 b2 b3 port canon_format h0 h1 h2 h3 p =
    elim (Bool-cases (port == 0)) [
      | inl x ↦
          let none_given : port ≡ 0 = ground (arith, x) in
          subst
            (λ k.
              string_ipv4_new (to_stringflex (ipv4_new (b0 ∷ b1 ∷ b2 ∷ b3 ∷ []) k) canon_format)
              ≡ some (ipv4_new (b0 ∷ b1 ∷ b2 ∷ b3 ∷ []) k))
            (sym none_given) (string-plain b0 b1 b2 b3 (h0, h1, h2, h3))
      | inr x ↦ rw x (string-port b0 b1 b2 b3 (h0, h1, h2, h3) port p)
    ]
