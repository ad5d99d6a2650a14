-- ===== src/Tlv/Untouched.antt =====
-- The setters of clientlib/tlvhelper.c leave the bytes before and after theirs alone, and so does a
-- reader not see what is written elsewhere.
use assimilation_official.Common.{
  ℕ, ◌+◌, ◌/◌, ◌%◌, ◌^◌, ◌≤◌, ◌<◌, ◌≡◌, refl, ◌⊎◌, ◌∙◌, List, length, set, get_or, arith,
  length-set,
}
use assimilation_official.Tlv.Bytes.{
  get_bytes, to_bytes, get_guint16, get_guint24, get_guint32, get_guint64, set_guint8, set_guint16,
  set_guint24, set_guint32, set_guint64,
}
use assimilation_official.Tlv.Roundtrip.{
  get_or-set_bytes, length-to_bytes, get_or-set_ne, get_or-set_self, get_bytes-agree,
  length-set_guint16, get_guint16-set_guint16, length-set_bytes, length-set_guint24,
}

-- Two packets have the same bytes from `at` on, `n` of them, and the same length.
pub record SameBytes (n at : ℕ) (buf buf' : List ℕ) : Type 0 where
  pub size : length buf ≡ length buf'
  pub bytes : (i : ℕ) → at ≤ i → i < at + n → get_or buf i 0 ≡ get_or buf' i 0

pub SameBytes-trans :
    (n at : ℕ) {a b c : List ℕ} → SameBytes n at a b → SameBytes n at b c → SameBytes n at a c
SameBytes-trans n at h k = record {
  size = h.size ∙ k.size;
  bytes = λ i p q. h.bytes i p q ∙ k.bytes i p q;
}

module _ (n from : ℕ) (buf : List ℕ) (at item : ℕ) where
  pub set_guint8-SameBytes :
      (from + n ≤ at) ⊎ (at + 1 ≤ from) → SameBytes n from (set_guint8 buf at item) buf
  unfolding set_guint8
  set_guint8-SameBytes h = record {
    size = ground (arith, length-set_bytes (to_bytes 1 item) buf at);
    bytes = λ i p q.
        ground (arith, get_or-set_bytes (to_bytes 1 item) buf at i, length-to_bytes 1 item);
  }

  pub set_guint16-SameBytes :
      (from + n ≤ at) ⊎ (at + 2 ≤ from) → SameBytes n from (set_guint16 buf at item) buf
  unfolding set_guint16
  set_guint16-SameBytes h = record {
    size = ground (arith, length-set_bytes (to_bytes 2 item) buf at);
    bytes = λ i p q.
        ground (arith, get_or-set_bytes (to_bytes 2 item) buf at i, length-to_bytes 2 item);
  }

  pub set_guint32-SameBytes :
      (from + n ≤ at) ⊎ (at + 4 ≤ from) → SameBytes n from (set_guint32 buf at item) buf
  unfolding set_guint32
  set_guint32-SameBytes h = record {
    size = ground (arith, length-set_bytes (to_bytes 4 item) buf at);
    bytes = λ i p q.
        ground (arith, get_or-set_bytes (to_bytes 4 item) buf at i, length-to_bytes 4 item);
  }

  pub set_guint64-SameBytes :
      (from + n ≤ at) ⊎ (at + 8 ≤ from) → SameBytes n from (set_guint64 buf at item) buf
  unfolding set_guint64
  set_guint64-SameBytes h = record {
    size = ground (arith, length-set_bytes (to_bytes 8 item) buf at);
    bytes = λ i p q.
        ground (arith, get_or-set_bytes (to_bytes 8 item) buf at i, length-to_bytes 8 item);
  }

pub set_guint24-SameBytes :
    (n from : ℕ) (buf : List ℕ) (at item : ℕ)
    → (from + n ≤ at) ⊎ (at + 3 ≤ from)
    → SameBytes n from (set_guint24 buf at item) buf
unfolding set_guint24
set_guint24-SameBytes n from buf at item h =
    let rest =
      set_guint16-SameBytes n from (set buf at (item / 65536 % 256)) (at + 1) (item % 65536)
        (omega arith) in
    record {
      size = length-set_guint24 buf at item;
      bytes =
          λ i p q. ground (arith, rest.bytes i p q, get_or-set_ne buf at i (item / 65536 % 256));
    }

module _ (buf buf' : List ℕ) (at : ℕ) where
  pub get_guint16-agree : SameBytes 2 at buf buf' → get_guint16 buf at ≡ get_guint16 buf' at
  unfolding get_guint16
  get_guint16-agree h = rw (h.size, get_bytes-agree 2 buf buf' at 0 h.bytes) refl

  pub get_guint32-agree : SameBytes 4 at buf buf' → get_guint32 buf at ≡ get_guint32 buf' at
  unfolding get_guint32
  get_guint32-agree h = rw (h.size, get_bytes-agree 4 buf buf' at 0 h.bytes) refl

  pub get_guint64-agree : SameBytes 8 at buf buf' → get_guint64 buf at ≡ get_guint64 buf' at
  unfolding get_guint64
  get_guint64-agree h = rw (h.size, get_bytes-agree 8 buf buf' at 0 h.bytes) refl

pub get_guint24-agree :
    (buf buf' : List ℕ) (at : ℕ)
    → SameBytes 3 at buf buf'
    → get_guint24 buf at ≡ get_guint24 buf' at
unfolding get_guint24
get_guint24-agree buf buf' at h =
    let last : SameBytes 2 (at + 1) buf buf' = record {
      size = h.size;
      bytes = λ i p q. h.bytes i (omega arith) (omega arith);
    } in
    let first = get_bytes-agree 1 buf buf' at 0 (λ i p q. h.bytes i p (omega arith)) in
    rw (h.size, get_guint16-agree buf buf' (at + 1) last, first) refl

-- The 24-bit integer, in its two parts.
pub get_guint24-set_guint24 :
    (buf : List ℕ) (at item : ℕ)
    → at + 3 ≤ length buf
    → item < 2 ^ 24
    → get_guint24 (set_guint24 buf at item) at ≡ item
unfolding get_guint24 set_guint24 get_bytes
get_guint24-set_guint24 buf at item h v =
    let high : ℕ = item / 65536 % 256 in
    let buf1 : List ℕ = set buf at high in
    let size : length buf1 ≡ length buf = length-set buf at high in
    let low =
      get_guint16-set_guint16 buf1 (at + 1) (item % 65536) (omega (arith, size)) (omega arith) in
    let before =
      (set_guint16-SameBytes 1 at buf1 (at + 1) (item % 65536) (omega arith)).bytes at (omega arith)
        (omega arith) in
    let first = get_or-set_self buf at high (omega arith) in
    ground (arith, size, low, before, first, length-set_guint16 buf1 (at + 1) (item % 65536))
