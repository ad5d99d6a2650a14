-- ===== src/Tlv/Roundtrip.antt =====
-- What clientlib/tlvhelper.c writes it reads back, and nothing else of the packet changes.
use assimilation_official.Common.{
  ℕ, suc, zero, ◌+◌, ◌*◌, ◌/◌, ◌%◌, ◌^◌, ◌≤◌, ◌<◌, ◌≡◌, refl, ◌≢◌, ◌⊎◌, ◌∙◌, sym, ap, List, [], ◌∷◌,
  ◌++◌, length, set, get_or, arith, length-append, length-set,
}
use assimilation_official.Tlv.Bytes.{
  get_bytes, set_bytes, to_bytes, get_guint8, get_guint16, get_guint32, get_guint64, set_guint8,
  set_guint16, set_guint24, set_guint32, set_guint64,
}

pub get_or-set_self : (buf : List ℕ) (i v : ℕ) → i < length buf → get_or (set buf i v) i 0 ≡ v
get_or-set_self [] i v h = absurd (omega arith)
get_or-set_self (x ∷ buf) zero v h = refl
get_or-set_self (x ∷ buf) (suc i) v h = get_or-set_self buf i v (omega arith)

pub get_or-set_ne : (buf : List ℕ) (i j v : ℕ) → i ≢ j → get_or (set buf i v) j 0 ≡ get_or buf j 0
get_or-set_ne [] i j v h = refl
get_or-set_ne (x ∷ buf) zero zero v h = absurd (h refl)
get_or-set_ne (x ∷ buf) zero (suc j) v h = refl
get_or-set_ne (x ∷ buf) (suc i) zero v h = refl
get_or-set_ne (x ∷ buf) (suc i) (suc j) v h = get_or-set_ne buf i j v (λ e. h (ap suc e))

pub length-set_bytes : (bs buf : List ℕ) (at : ℕ) → length (set_bytes bs buf at) ≡ length buf
unfolding set_bytes
length-set_bytes [] buf at = refl
length-set_bytes (b ∷ bs) buf at = length-set_bytes bs (set buf at b) (at + 1) ∙ length-set buf at b

-- A write changes nothing outside of its bytes.
pub get_or-set_bytes :
    (bs buf : List ℕ) (at i : ℕ)
    → (i < at) ⊎ (at + length bs ≤ i)
    → get_or (set_bytes bs buf at) i 0 ≡ get_or buf i 0
unfolding set_bytes
get_or-set_bytes [] buf at i h = refl
get_or-set_bytes (b ∷ bs) buf at i h =
    get_or-set_bytes bs (set buf at b) (at + 1) i (omega arith)
    ∙ get_or-set_ne buf at i b (omega arith)

-- Reading looks at its bytes only.
pub get_bytes-agree :
    (n : ℕ) (buf buf' : List ℕ) (at item : ℕ)
    → ((i : ℕ) → at ≤ i → i < at + n → get_or buf i 0 ≡ get_or buf' i 0)
    → get_bytes n buf at item ≡ get_bytes n buf' at item
unfolding get_bytes
get_bytes-agree zero buf buf' at item h = refl
get_bytes-agree (suc n) buf buf' at item h = rw (h at (omega arith) (omega arith)) (
    get_bytes-agree n buf buf' (at + 1) (item * 256 + get_or buf' at 0)
      (λ i p q. h i (omega arith) (omega arith)))

-- The integer that a list of bytes is in network byte order.
abbrev from_bytes : List ℕ → ℕ → ℕ
from_bytes [] item = item
from_bytes (b ∷ bs) item = from_bytes bs (item * 256 + b)

get_bytes-set_bytes :
    (bs buf : List ℕ) (at item : ℕ)
    → at + length bs ≤ length buf
    → get_bytes (length bs) (set_bytes bs buf at) at item ≡ from_bytes bs item
unfolding get_bytes set_bytes
get_bytes-set_bytes [] buf at item h = refl
get_bytes-set_bytes (b ∷ bs) buf at item h =
    let first : get_or (set_bytes bs (set buf at b) (at + 1)) at 0 ≡ b =
      get_or-set_bytes bs (set buf at b) (at + 1) at (omega arith)
      ∙ get_or-set_self buf at b (omega arith) in
    rw (first, get_bytes, set_bytes)
      (get_bytes-set_bytes bs (set buf at b) (at + 1) (item * 256 + b)
        (omega (arith, length-set buf at b)))

pub length-to_bytes : (n item : ℕ) → length (to_bytes n item) ≡ n
unfolding to_bytes
length-to_bytes zero item = refl
length-to_bytes (suc n) item = omega (
  arith,
  length-append (to_bytes n (item / 256)) (item % 256 ∷ []),
  length-to_bytes n (item / 256),
)

from_bytes-snoc :
    (bs : List ℕ) (b item : ℕ) → from_bytes (bs ++ (b ∷ [])) item ≡ from_bytes bs item * 256 + b
from_bytes-snoc [] b item = refl
from_bytes-snoc (c ∷ bs) b item = from_bytes-snoc bs b (item * 256 + c)

from_bytes-to_bytes : (n item : ℕ) → item < 256 ^ n → from_bytes (to_bytes n item) 0 ≡ item
unfolding to_bytes
from_bytes-to_bytes zero item h = omega arith
from_bytes-to_bytes (suc n) item h = omega (
  arith,
  from_bytes-snoc (to_bytes n (item / 256)) (item % 256) 0,
  from_bytes-to_bytes n (item / 256) (omega arith),
)

-- An integer of `n` bytes that is written inside of a packet is read back.
read_back :
    (n : ℕ) (buf : List ℕ) (at item : ℕ)
    → at + n ≤ length buf
    → item < 256 ^ n
    → get_bytes n (set_bytes (to_bytes n item) buf at) at 0 ≡ item
read_back n buf at item h v =
    ap (λ k. get_bytes k (set_bytes (to_bytes n item) buf at) at 0) (sym (length-to_bytes n item))
    ∙ get_bytes-set_bytes (to_bytes n item) buf at 0 (omega (arith, length-to_bytes n item))
    ∙ from_bytes-to_bytes n item v

-- Each of the setters, on a place and a value that fit.
module _ (buf : List ℕ) (at item : ℕ) where
  pub length-set_guint16 : length (set_guint16 buf at item) ≡ length buf
  unfolding set_guint16
  length-set_guint16 = ground (arith, length-set_bytes (to_bytes 2 item) buf at)

  pub length-set_guint24 : length (set_guint24 buf at item) ≡ length buf
  unfolding set_guint24 set_guint16
  length-set_guint24 = ground (
    arith,
    length-set buf at (item / 65536 % 256),
    length-set_bytes (to_bytes 2 (item % 65536)) (set buf at (item / 65536 % 256)) (at + 1),
  )

  pub length-set_guint32 : length (set_guint32 buf at item) ≡ length buf
  unfolding set_guint32
  length-set_guint32 = ground (arith, length-set_bytes (to_bytes 4 item) buf at)

  pub length-set_guint64 : length (set_guint64 buf at item) ≡ length buf
  unfolding set_guint64
  length-set_guint64 = ground (arith, length-set_bytes (to_bytes 8 item) buf at)

  pub get_guint8-set_guint8 :
      at + 1 ≤ length buf → item < 2 ^ 8 → get_guint8 (set_guint8 buf at item) at ≡ item
  unfolding get_guint8 set_guint8
  get_guint8-set_guint8 h v =
      ground (arith, length-set_bytes (to_bytes 1 item) buf at, read_back 1 buf at item h v)

  pub get_guint16-set_guint16 :
      at + 2 ≤ length buf → item < 2 ^ 16 → get_guint16 (set_guint16 buf at item) at ≡ item
  unfolding get_guint16 set_guint16
  get_guint16-set_guint16 h v =
      ground (arith, length-set_bytes (to_bytes 2 item) buf at, read_back 2 buf at item h v)

  pub get_guint32-set_guint32 :
      at + 4 ≤ length buf → item < 2 ^ 32 → get_guint32 (set_guint32 buf at item) at ≡ item
  unfolding get_guint32 set_guint32
  get_guint32-set_guint32 h v =
      ground (arith, length-set_bytes (to_bytes 4 item) buf at, read_back 4 buf at item h v)

  pub get_guint64-set_guint64 :
      at + 8 ≤ length buf → item < 2 ^ 64 → get_guint64 (set_guint64 buf at item) at ≡ item
  unfolding get_guint64 set_guint64
  get_guint64-set_guint64 h v =
      ground (arith, length-set_bytes (to_bytes 8 item) buf at, read_back 8 buf at item h v)
