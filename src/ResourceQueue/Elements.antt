-- ===== src/ResourceQueue/Elements.antt =====
-- One queue of clientlib/resourcequeue.c: what starting, ending and removing an element does to it.
use assimilation_official.Common.{
  ℕ, ◌+◌, ◌≡◌, ◌≤◌, refl, inl, inr, Bool, true, false, not, ◌&&◌, some, List, [], ◌∷◌, length,
  arith, All, Bool-cases, ◌==◌, if◌then◌else◌,
}
use mathlib.Core.Option.{some_inj}
use mathlib.Core.Path.{subst}
use assimilation_official.ResourceQueue.{RscQElem, without, push_tail}
use assimilation_official.ResourceQueue.Run.{
  any_running, run_first, run_one, execute, is_due, find_serial, stop_running,
}

-- The sum of a weight over a queue.
abbrev pub sum : (RscQElem → ℕ) → List RscQElem → ℕ
sum w [] = 0
sum w (e ∷ q) = w e + sum w q

-- How many commands run, among the elements whose serial number passes a test.
abbrev pub runs_weight : (ℕ → Bool) → RscQElem → ℕ
runs_weight p e = if e.cmd.is_running && p e.serial then 1 else 0

abbrev pub any_serial : ℕ → Bool
any_serial serial = true

abbrev pub runs : (ℕ → Bool) → List RscQElem → ℕ
runs p q = sum (runs_weight p) q

-- How many elements have a serial number.
abbrev pub count_weight : ℕ → RscQElem → ℕ
count_weight serial e = if serial == e.serial then 1 else 0

abbrev pub count : ℕ → List RscQElem → ℕ
count serial q = sum (count_weight serial) q

module _ (w : RscQElem → ℕ) where
  pub sum-push_tail : (e : RscQElem) (q : List RscQElem) → sum w (push_tail e q) ≡ sum w q + w e
  sum-push_tail e [] = omega arith
  sum-push_tail e (f ∷ q) = omega (arith, sum-push_tail e q)

  pub sum-without_le : (serial : ℕ) (q : List RscQElem) → sum w (without serial q) ≤ sum w q
  unfolding without
  sum-without_le serial [] = omega arith
  sum-without_le serial (e ∷ q) = ground (arith, sum-without_le serial q)

  pub sum-without :
      (serial : ℕ) (e : RscQElem) (q : List RscQElem)
      → find_serial serial q ≡ some e
      → sum w (without serial q) + w e ≡ sum w q
  unfolding without find_serial
  sum-without serial e [] h = absurd (ground arith)
  sum-without serial e (f ∷ q) h = elim (Bool-cases (serial == f.serial)) [
    | inl x ↦
        let same_one : f ≡ e =
          some_inj.0 (subst (λ b. (if b then some f else find_serial serial q) ≡ some e) x h) in
        rw (x, same_one) (omega arith)
    | inr x ↦
        let later =
          sum-without serial e q
            (subst (λ b. (if b then some f else find_serial serial q) ≡ some e) x h) in
        rw x (omega (arith, later))
  ]

module _ (spawn : RscQElem → Bool) (now : ℕ) where
  runs-run_first :
      (p : ℕ → Bool) (q : List RscQElem)
      → runs p (run_first spawn now q).0 ≤ runs p q + (run_first spawn now q).1
  unfolding run_first execute
  runs-run_first p [] = omega arith
  runs-run_first p (e ∷ q) = ground (arith, runs-run_first p q)

  run_first_once : (q : List RscQElem) → (run_first spawn now q).1 ≤ 1
  unfolding run_first
  run_first_once [] = omega arith
  run_first_once (e ∷ q) = ground (arith, run_first_once q)

  pub runs-run_one :
      (p : ℕ → Bool) (q : List RscQElem)
      → runs p (run_one spawn now q).0 ≤ runs p q + (run_one spawn now q).1
  unfolding run_one
  runs-run_one p q = ground (arith, runs-run_first p q)

  not_running : (q : List RscQElem) → any_running q ≡ false → runs any_serial q ≡ 0
  unfolding any_running
  not_running [] h = refl
  not_running (e ∷ q) h = ground (arith, not_running q)

  pub run_one_single :
      (q : List RscQElem) → runs any_serial q ≤ 1 → runs any_serial (run_one spawn now q).0 ≤ 1
  unfolding run_one
  run_one_single q h = ground (arith, not_running q, runs-run_first any_serial q, run_first_once q)

  count-run_first :
      (serial : ℕ) (q : List RscQElem) → count serial (run_first spawn now q).0 ≡ count serial q
  unfolding run_first execute
  count-run_first serial [] = refl
  count-run_first serial (e ∷ q) = ground (arith, count-run_first serial q)

  pub count-run_one :
      (serial : ℕ) (q : List RscQElem) → count serial (run_one spawn now q).0 ≡ count serial q
  unfolding run_one
  count-run_one serial q = ground (arith, count-run_first serial q)

length-run_first :
    (spawn : RscQElem → Bool) (now : ℕ) (q : List RscQElem)
    → length (run_first spawn now q).0 ≡ length q
unfolding run_first
length-run_first spawn now [] = refl
length-run_first spawn now (e ∷ q) = ground (arith, length-run_first spawn now q)

pub length-run_one :
    (spawn : RscQElem → Bool) (now : ℕ) (q : List RscQElem)
    → length (run_one spawn now q).0 ≡ length q
unfolding run_one
length-run_one spawn now q = ground (arith, length-run_first spawn now q)

pub length-stop_running : (s : ℕ) (q : List RscQElem) → length (stop_running s q) ≡ length q
unfolding stop_running
length-stop_running s [] = refl
length-stop_running s (e ∷ q) = ground (arith, length-stop_running s q)

pub count-stop_running :
    (serial s : ℕ) (q : List RscQElem) → count serial (stop_running s q) ≡ count serial q
unfolding stop_running
count-stop_running serial s [] = refl
count-stop_running serial s (e ∷ q) = ground (arith, count-stop_running serial s q)

pub runs-stop_running_le :
    (p : ℕ → Bool) (s : ℕ) (q : List RscQElem) → runs p (stop_running s q) ≤ runs p q
unfolding stop_running
runs-stop_running_le p s [] = omega arith
runs-stop_running_le p s (e ∷ q) = ground (arith, runs-stop_running_le p s q)

-- All but the elements with a serial number.
abbrev pub but : ℕ → ℕ → Bool
but s serial = not (s == serial)

runs-none : (s : ℕ) (q : List RscQElem) → count s q ≡ 0 → runs any_serial q ≡ runs (but s) q
runs-none s [] h = refl
runs-none s (e ∷ q) h = ground (arith, runs-none s q)

pub runs-stop_running :
    (s : ℕ) (q : List RscQElem)
    → count s q ≤ 1
    → runs any_serial (stop_running s q) ≡ runs (but s) q
unfolding stop_running
runs-stop_running s [] h = refl
runs-stop_running s (e ∷ q) h = ground (arith, runs-stop_running s q, runs-none s q)

-- A property of elements that starting and ending them does not touch.
module _ (E : RscQElem → Type 0) where
  pub All-push_tail : (e : RscQElem) (q : List RscQElem) → All E q → E e → All E (push_tail e q)
  All-push_tail e [] h x = (x, tt)
  All-push_tail e (f ∷ q) h x = (h.0, All-push_tail e q h.1 x)

  pub All-without : (serial : ℕ) (q : List RscQElem) → All E q → All E (without serial q)
  unfolding without
  All-without serial [] h = tt
  All-without serial (e ∷ q) h = elim (Bool-cases (serial == e.serial)) [
    | inl x ↦ rw x h.1
    | inr x ↦ rw x (h.0, All-without serial q h.1)
  ]

  All-run_first :
      (spawn : RscQElem → Bool) (now : ℕ)
      → ((e : RscQElem) → E e → E (execute spawn now e))
      → (q : List RscQElem) → All E q
      → All E (run_first spawn now q).0
  unfolding run_first
  All-run_first spawn now keep [] h = tt
  All-run_first spawn now keep (e ∷ q) h = elim (Bool-cases (is_due now e)) [
    | inl x ↦ rw x (keep e h.0, h.1)
    | inr x ↦ rw x (h.0, All-run_first spawn now keep q h.1)
  ]

  pub All-run_one :
      (spawn : RscQElem → Bool) (now : ℕ)
      → ((e : RscQElem) → E e → E (execute spawn now e))
      → (q : List RscQElem) → All E q
      → All E (run_one spawn now q).0
  unfolding run_one
  All-run_one spawn now keep q h = elim (Bool-cases (any_running q)) [
    | inl x ↦ rw x h
    | inr x ↦ rw x (All-run_first spawn now keep q h)
  ]

  pub All-stop_running :
      (serial : ℕ)
      → ((e : RscQElem) → E e → E (record e { cmd = record e.cmd { is_running = false } }))
      → (q : List RscQElem) → All E q
      → All E (stop_running serial q)
  unfolding stop_running
  All-stop_running serial keep [] h = tt
  All-stop_running serial keep (e ∷ q) h = elim (Bool-cases (serial == e.serial)) [
    | inl x ↦ rw x (keep e h.0, h.1)
    | inr x ↦ rw x (h.0, All-stop_running serial keep q h.1)
  ]
