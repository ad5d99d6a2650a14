-- ===== src/NetAddr/Strings.antt =====
-- clientlib/netaddr.c: the strings of addresses. A string is the list of its characters.
use assimilation_official.Common.{
  ℕ, zero, suc, ◌+◌, ◌-◌, ◌*◌, ◌/◌, ◌%◌, ◌^◌, ℤ, to_signed, to_unsigned, leqz, Bool, true, false,
  not, ◌&&◌, ◌||◌, Option, none, some, List, [], ◌∷◌, ◌++◌, map, length, drop, get_or, leb, ltb,
  ◌==◌, if◌then◌else◌,
}
use assimilation_official.NetAddr.{NetAddr, ipv4, ipv6, ipv4_new, v4prefix, same, same_bytes}

abbrev pub dot : ℕ
dot = 46

abbrev pub colon : ℕ
colon = 58

-- `%d` of a number of at most `n` digits.
unfoldable pub digits : ℕ → ℕ → List ℕ
digits zero n = []
digits (suc size) n =
    let more = digits size (n / 10) in
    if ltb n 10 then (n + 48) ∷ [] else more ++ ((n % 10 + 48) ∷ [])

-- `%d` of a guint16 or of a byte.
abbrev pub decimal : ℕ → List ℕ
decimal n = digits 5 n

abbrev pub hex_digit : ℕ → ℕ
hex_digit n = if ltb n 10 then n + 48 else n + 87

-- `%x` of a number of at most `n` digits.
unfoldable pub hex_digits : ℕ → ℕ → List ℕ
hex_digits zero n = []
hex_digits (suc size) n =
    let more = hex_digits size (n / 16) in
    if ltb n 16 then hex_digit n ∷ [] else more ++ (hex_digit (n % 16) ∷ [])

-- Four bytes with dots between them, and what follows them.
abbrev pub dotted : List ℕ → ℕ → List ℕ → List ℕ
dotted body at tail =
    decimal (get_or body at 0)
    ++ (dot
        ∷ (decimal (get_or body (at + 1) 0)
            ++ (dot
                ∷ (decimal (get_or body (at + 2) 0)
                    ++ (dot ∷ (decimal (get_or body (at + 3) 0) ++ tail))))))

-- The port behind what separates it, unless it is 0.
abbrev pub with_port : List ℕ → ℕ → List ℕ
with_port suffix port = if port == 0 then [] else suffix ++ decimal port

-- "::ffff:"
abbrev pub mapped : List ℕ
mapped = 58 ∷ 58 ∷ 102 ∷ 102 ∷ 102 ∷ 102 ∷ 58 ∷ []

-- `_netaddr_toString_ipv6_ipv4`
unfoldable pub to_string_v6_v4 : NetAddr → Bool → List ℕ
to_string_v6_v4 self ipv4format =
    let prefix : List ℕ =
      (if ipv4format then [] else if self.addrport == 0 then mapped else 91 ∷ mapped) in
    let suffix : List ℕ = (if ipv4format then colon ∷ [] else 93 ∷ colon ∷ []) in
    prefix ++ dotted self.addrbody 12 (with_port suffix self.addrport)

-- The zeroes that were held back.
abbrev pub held_back : ℕ → ℕ → List ℕ
held_back nbyte zerocount =
    if zerocount == 1
    then (if nbyte == 2 then 48 ∷ [] else colon ∷ 48 ∷ [])
    else if ltb 1 zerocount
    then colon ∷ colon ∷ []
    else []

-- The loop over the words of an IPv6 address, and what is left to print behind it.
unfoldable pub v6_words : List ℕ → ℕ → ℕ → Bool → List ℕ
v6_words (byte0 ∷ byte1 ∷ rest) nbyte zerocount doublecolonyet =
    let word : ℕ = byte0 * 256 + byte1 in
    let justhad : Bool = ltb 1 zerocount in
    elim (not doublecolonyet && (word == 0)) [
      | true ↦ v6_words rest (nbyte + 2) (zerocount + 1) doublecolonyet
      | false ↦
          held_back nbyte zerocount
          ++ ((if nbyte == 0 || justhad then [] else colon ∷ [])
              ++ (hex_digits 4 word ++ v6_words rest (nbyte + 2) 0 (doublecolonyet || justhad)))
    ]
v6_words rest nbyte zerocount doublecolonyet =
    if zerocount == 1
    then colon ∷ 48 ∷ 48 ∷ []
    else if ltb 1 zerocount
    then colon ∷ colon ∷ []
    else []

-- The bytes of any other address, in hexadecimal with dashes.
unfoldable pub mac_bytes : List ℕ → List ℕ
mac_bytes [] = []
mac_bytes (byte ∷ []) = hex_digit (byte / 16) ∷ hex_digit (byte % 16) ∷ []
mac_bytes (byte ∷ next ∷ rest) =
    hex_digit (byte / 16) ∷ hex_digit (byte % 16) ∷ 45 ∷ mac_bytes (next ∷ rest)

-- "{invalid ipv6}"
abbrev pub invalid_ipv6 : List ℕ
invalid_ipv6 = 123 ∷ 105 ∷ 110 ∷ 118 ∷ 97 ∷ 108 ∷ 105 ∷ 100 ∷ 32 ∷ 105 ∷ 112 ∷ 118 ∷ 54 ∷ 125 ∷ []

-- `_netaddr_toStringflex`
unfoldable pub to_stringflex : NetAddr → Bool → List ℕ
unfolding same
to_stringflex self canon_format =
    if self.addrtype == ipv4
    then dotted self.addrbody 0 (with_port (colon ∷ []) self.addrport)
    else if not (self.addrtype == ipv6)
    then mac_bytes self.addrbody
    else if not (length self.addrbody == 16)
    then invalid_ipv6
    else if same_bytes 12 self.addrbody v4prefix
    then to_string_v6_v4 self canon_format
    else ((if self.addrport == 0 then [] else 91 ∷ [])
        ++ (v6_words self.addrbody 0 0 false ++ with_port (93 ∷ colon ∷ []) self.addrport))

abbrev pub is_digit : ℕ → Bool
is_digit c = leb 48 c && leb c 57

-- The number at the start of a string without blanks and signs.
unfoldable pub atoi_loop : List ℕ → ℕ → ℕ
atoi_loop [] n = n
atoi_loop (c ∷ s) n = let more = atoi_loop s (n * 10 + (c - 48)) in if is_digit c then more else n

-- glibc's `atoi` of such a string: the long of `strtol`, which stops at its largest, as an int.
unfoldable pub atoi : List ℕ → ℤ
atoi s = let n : ℕ = atoi_loop s 0 in to_signed 31 (if ltb n (2 ^ 63) then n else 2 ^ 63 - 1)

-- `dotpositions` and `colonpos`; `none` is its -1.
pub record Marks : Type 0 where
  pub dotpositions : List ℕ
  pub colonpos : Option ℕ

abbrev pub has_colon : Option ℕ → Bool
has_colon none = false
has_colon (some pos) = true

-- The `switch` of the loop over the string of `_netaddr_string_ipv4_new`: `none` is a NULL.
unfoldable pub mark : ℕ → ℕ → Marks → Option Marks
mark c j marks =
    if is_digit c
    then some marks
    else if c == dot
    then (if leb 3 (length marks.dotpositions) || has_colon marks.colonpos
        then none
        else some (record marks { dotpositions = marks.dotpositions ++ (j ∷ []) }))
    else if c == colon
    then (if has_colon marks.colonpos || ltb 21 j
        then none
        else some (record marks { colonpos = some j }))
    else none

-- The loop over the string.
unfoldable pub scan : List ℕ → ℕ → Marks → Option Marks
scan [] j marks = some marks
scan (c ∷ s) j marks = elim (mark c j marks) [ none ↦ none | some after ↦ scan s (j + 1) after ]

unfoldable pub are_bytes : List ℤ → Bool
are_bytes [] = true
are_bytes (byte ∷ rest) = leqz (ℤ.pos 0) byte && leqz byte (ℤ.pos 255) && are_bytes rest

-- `_netaddr_string_ipv4_new`
unfoldable pub string_ipv4_new : List ℕ → Option NetAddr
string_ipv4_new addrstr = elim (scan addrstr 0 (record { dotpositions = []; colonpos = none })) [
  | none ↦ none
  | some marks ↦
      let bytes : List ℤ =
        atoi addrstr ∷ map (λ pos. atoi (drop (pos + 1) addrstr)) marks.dotpositions in
      if not (length marks.dotpositions == 3) || not (are_bytes bytes)
      then none
      else elim marks.colonpos [
        | none ↦ some (ipv4_new (map (to_unsigned 8) bytes) 0)
        | some pos ↦
            let port : ℤ = atoi (drop (pos + 1) addrstr) in
            if ltb (length addrstr) (pos + 2) || not (leqz port (ℤ.pos 65535))
            then none
            else some (ipv4_new (map (to_unsigned 8) bytes) (to_unsigned 16 port))
      ]
]
