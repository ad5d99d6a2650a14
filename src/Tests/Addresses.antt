-- ===== src/Tests/Addresses.antt =====
-- clientlib/netaddr.c on a few addresses.
use assimilation_official.Common.{
  ℕ, ◌≡◌, refl, ◌↔◌, true, false, some, List, [], ◌∷◌, ◌++◌, arith, take, replicate,
}
use assimilation_official.NetAddr.{NetAddr, ipv4, ipv6, ipv4_new, same, equal, hash, v4prefix}
use assimilation_official.NetAddr.Canonical.{IsWellFormed, identity}
use assimilation_official.NetAddr.Equal.{equal-identity_iff, hash_of_equal}
use assimilation_official.NetAddr.Strings.{
  to_stringflex, string_ipv4_new, v6_words, hex_digits, digits, scan, mark, are_bytes, atoi,
  atoi_loop,
}
use assimilation_official.NetAddr.Reading.{string_ipv4_new-to_stringflex}
use assimilation_official.NetAddr.Sockets.{isanyaddr, sockaddr_new, ipv6sockaddr}
use assimilation_official.NetAddr.Kinds.{equal-sockaddr_new, isanyaddr_iff}

abbrev four : List ℕ → NetAddr
four body = record { addrtype = ipv4; addrport = 1984; addrbody = body }

abbrev six : List ℕ → NetAddr
six body = record { addrtype = ipv6; addrport = 1984; addrbody = body }

abbrev host : List ℕ
host = 10 ∷ 10 ∷ 10 ∷ 5 ∷ []

abbrev mapped : NetAddr
mapped = six (v4prefix ++ host)

four-IsWellFormed : IsWellFormed (four host)
four-IsWellFormed = omega arith

mapped-IsWellFormed : IsWellFormed mapped
mapped-IsWellFormed = omega arith

equal-mapped : equal (four host) mapped ≡ true
unfolding equal same
equal-mapped = refl

equal-identity_iff_example :
    (equal (four host) mapped ≡ true) ↔ (identity (four host) ≡ identity mapped)
equal-identity_iff_example =
    equal-identity_iff (four host) mapped four-IsWellFormed mapped-IsWellFormed

hash_of_equal_example : hash 17 (four host) ≡ hash 17 mapped
hash_of_equal_example =
    hash_of_equal 17 (four host) mapped four-IsWellFormed mapped-IsWellFormed equal-mapped

equal-sockaddr_new_example :
    (b : NetAddr) × (sockaddr_new (ipv6sockaddr (four host)) ≡ some b)
    × IsWellFormed b
    × (equal (four host) b ≡ true)
equal-sockaddr_new_example = equal-sockaddr_new (four host) four-IsWellFormed refl

abbrev zeros : List ℕ
zeros = 0 ∷ 0 ∷ 0 ∷ 0 ∷ []

-- What may lie behind them.
abbrev other_bytes : List ℕ
other_bytes = 7 ∷ 0 ∷ []

isanyaddr_iff_example :
    (isanyaddr other_bytes (four zeros) ≡ true)
    ↔ ((zeros ≡ replicate 4 0) × (take 12 other_bytes ≡ replicate 12 0))
isanyaddr_iff_example = isanyaddr_iff zeros other_bytes 1984 refl

string_ipv4_new-to_stringflex_example :
    string_ipv4_new (to_stringflex (ipv4_new host 1984) true) ≡ some (ipv4_new host 1984)
string_ipv4_new-to_stringflex_example =
    string_ipv4_new-to_stringflex 10 10 10 5 1984 true (omega arith) (omega arith) (omega arith)
      (omega arith) (omega arith)

-- "1...": the numbers that are not there are 0.
one_number : string_ipv4_new (49 ∷ 46 ∷ 46 ∷ 46 ∷ []) ≡ some (ipv4_new (1 ∷ 0 ∷ 0 ∷ 0 ∷ []) 0)
unfolding string_ipv4_new scan mark are_bytes atoi atoi_loop
one_number = refl

-- "[1:0:2::3]:80"
printed_v6 :
    to_stringflex
      (record {
        addrtype = ipv6;
        addrport = 80;
        addrbody = 0 ∷ 1 ∷ 0 ∷ 0 ∷ 0 ∷ 2 ∷ 0 ∷ 0 ∷ 0 ∷ 0 ∷ 0 ∷ 0 ∷ 0 ∷ 0 ∷ 0 ∷ 3 ∷ [];
      })
      false
    ≡ (91 ∷ 49 ∷ 58 ∷ 48 ∷ 58 ∷ 50 ∷ 58 ∷ 58 ∷ 51 ∷ 93 ∷ 58 ∷ 56 ∷ 48 ∷ [])
unfolding to_stringflex v6_words hex_digits digits same
printed_v6 = refl
