-- ===== src/Heartbeat/Unique.antt =====
-- clientlib/hblistener.c: there is one listener for an address.
use assimilation_official.Common.{
  ℕ, ◌≡◌, inl, inr, true, false, none, List, [], ◌∷◌, arith, All, Bool-cases, sym, ◌∙◌,
}
use mathlib.Core.Path.{subst}
use assimilation_official.NetAddr.{NetAddr, equal}
use assimilation_official.NetAddr.Canonical.{IsWellFormed}
use assimilation_official.NetAddr.Equal.{equal-identity_iff}
use assimilation_official.Heartbeat.{
  HbListener, find_by_address, remove_found, check_one, check_all, beat, beat_found,
}

abbrev pub Apart : NetAddr → List HbListener → Type 0
Apart which ls = All (λ l. equal which l.listenaddr ≡ false) ls

-- Listeners for well-formed addresses that differ from each other.
abbrev pub IsListed : List HbListener → Type 0
IsListed [] = Unit
IsListed (l ∷ rest) = IsWellFormed l.listenaddr × Apart l.listenaddr rest × IsListed rest

pub equal_sym :
    (a b : NetAddr) → IsWellFormed a → IsWellFormed b → equal a b ≡ true → equal b a ≡ true
equal_sym a b wa wb h = (equal-identity_iff b a wb wa).1 (sym ((equal-identity_iff a b wa wb).0 h))

pub equal_apart :
    (a b c : NetAddr)
    → IsWellFormed a
    → IsWellFormed b
    → IsWellFormed c
    → equal a b ≡ true
    → equal b c ≡ false
    → equal a c ≡ false
equal_apart a b c wa wb wc h k = elim (Bool-cases (equal a c)) [
  | inr x ↦ x
  | inl x ↦
      let joined : equal b c ≡ true =
        (equal-identity_iff b c wb wc).1
          (sym ((equal-identity_iff a b wa wb).0 h) ∙ (equal-identity_iff a c wa wc).0 x) in
      absurd (ground arith)
]

-- An address that equals the first of the listeners' differs from the others'.
pub Apart-rest :
    (which : NetAddr) (l : HbListener) (rest : List HbListener)
    → IsWellFormed which
    → IsListed (l ∷ rest)
    → equal which l.listenaddr ≡ true
    → Apart which rest
Apart-rest which l [] w h e = tt
Apart-rest which l (m ∷ rest) w h e = (
  equal_apart which l.listenaddr m.listenaddr w h.0 h.2.0 e h.1.0,
  Apart-rest which l rest w (h.0, h.1.1, h.2.2) e,
)

pub Apart-none :
    (which : NetAddr) (ls : List HbListener) → find_by_address which ls ≡ none → Apart which ls
unfolding find_by_address
Apart-none which [] h = tt
Apart-none which (l ∷ ls) h = (ground arith, Apart-none which ls (ground arith))

Apart-remove_found :
    (which other : NetAddr) (ls : List HbListener)
    → Apart which ls
    → Apart which (remove_found other ls)
unfolding remove_found
Apart-remove_found which other [] h = tt
Apart-remove_found which other (l ∷ ls) h = elim (Bool-cases (equal other l.listenaddr)) [
  | inl x ↦ rw x h.1
  | inr x ↦ rw x (h.0, Apart-remove_found which other ls h.1)
]

pub remove_found-IsListed :
    (which : NetAddr) (ls : List HbListener) → IsListed ls → IsListed (remove_found which ls)
unfolding remove_found
remove_found-IsListed which [] h = tt
remove_found-IsListed which (l ∷ ls) h = elim (Bool-cases (equal which l.listenaddr)) [
  | inl x ↦ rw x h.2
  | inr x ↦
      rw x (h.0, Apart-remove_found l.listenaddr which ls h.1, remove_found-IsListed which ls h.2)
]

-- Once the listener for an address is gone, there is none.
pub removed-Apart :
    (which : NetAddr) (ls : List HbListener)
    → IsWellFormed which
    → IsListed ls
    → Apart which (remove_found which ls)
unfolding remove_found
removed-Apart which [] w h = tt
removed-Apart which (l ∷ ls) w h = elim (Bool-cases (equal which l.listenaddr)) [
  | inl x ↦ rw x (Apart-rest which l ls w h x)
  | inr x ↦ rw x (x, removed-Apart which ls w h.2)
]

-- The checks and the heartbeats leave the addresses as they are.
pub check_one-address : (now : ℕ) (l : HbListener) → (check_one now l).listenaddr ≡ l.listenaddr
unfolding check_one
check_one-address now l = ground arith

Apart-check_all :
    (which : NetAddr) (now : ℕ) (ls : List HbListener)
    → Apart which ls
    → Apart which (check_all now ls).0
unfolding check_all
Apart-check_all which now [] h = tt
Apart-check_all which now (l ∷ ls) h =
    (rw (check_one-address now l) h.0, Apart-check_all which now ls h.1)

pub check_all-IsListed :
    (now : ℕ) (ls : List HbListener) → IsListed ls → IsListed (check_all now ls).0
unfolding check_all
check_all-IsListed now [] h = tt
check_all-IsListed now (l ∷ ls) h = (
  rw (check_one-address now l) h.0,
  subst (λ a. Apart a (check_all now ls).0) (sym (check_one-address now l))
      (Apart-check_all l.listenaddr now ls h.1),
  check_all-IsListed now ls h.2,
)

Apart-beat_found :
    (which : NetAddr) (now : ℕ) (src : NetAddr) (ls : List HbListener)
    → Apart which ls
    → Apart which (beat_found now src ls)
unfolding beat_found beat
Apart-beat_found which now src [] h = tt
Apart-beat_found which now src (l ∷ ls) h = elim (Bool-cases (equal src l.listenaddr)) [
  | inl x ↦ rw x h
  | inr x ↦ rw x (h.0, Apart-beat_found which now src ls h.1)
]

pub beat_found-IsListed :
    (now : ℕ) (src : NetAddr) (ls : List HbListener)
    → IsListed ls
    → IsListed (beat_found now src ls)
unfolding beat_found beat
beat_found-IsListed now src [] h = tt
beat_found-IsListed now src (l ∷ ls) h = elim (Bool-cases (equal src l.listenaddr)) [
  | inl x ↦ rw x h
  | inr x ↦
      rw x (h.0, Apart-beat_found l.listenaddr now src ls h.1, beat_found-IsListed now src ls h.2)
]
