-- ===== src/Heartbeat/Deaths.antt =====
-- clientlib/hblistener.c: when a node is reported dead, and when it is reported alive again.
use assimilation_official.Common.{
  ℕ, ◌≡◌, refl, inl, inr, Bool, true, false, Option, none, some, List, [], ◌∷◌, arith, All,
  Bool-cases, sym, ap, if◌then◌else◌,
}
use mathlib.Core.Path.{subst}
use mathlib.Core.Option.{some_inj}
use assimilation_official.NetAddr.{NetAddr, equal}
use assimilation_official.NetAddr.Canonical.{IsWellFormed}
use assimilation_official.Heartbeat.{
  HbListener, Report, find_by_address, is_received, is_overdue, check_one, check_all, beat,
  beat_found, died, came_alive,
}
use assimilation_official.Heartbeat.Unique.{
  IsListed, Apart, Apart-rest, equal_apart, check_one-address,
}

-- Whether a report says that the node of an address died, or that it is alive again.
abbrev pub says_died : NetAddr → Report → Bool
says_died a (died cb who) = equal a who
says_died a _ = false

abbrev pub says_alive : NetAddr → Report → Bool
says_alive a (came_alive cb who howlate) = equal a who
says_alive a _ = false

-- What the reports make of a node that was thought alive, or dead: `none` when it is reported dead
-- twice with no return between, or alive again without having died.
abbrev pub follow : NetAddr → Bool → List Report → Option Bool
follow a alive [] = some alive
follow a alive (r ∷ rest) =
    let after_death : Option Bool = follow a false rest in
    let after_return : Option Bool = follow a true rest in
    let same_as_before : Option Bool = follow a alive rest in
    if says_died a r
    then (if alive then after_death else none)
    else if says_alive a r
    then (if alive then none else after_return)
    else same_as_before

-- The status in which the file has the node of an address.
abbrev pub thought_alive : NetAddr → List HbListener → Option Bool
thought_alive a ls = elim (find_by_address a ls) [
  | none ↦ none
  | some l ↦ some (is_received l.status)
]

follow-check-Apart :
    (a : NetAddr) (alive : Bool) (now : ℕ) (ls : List HbListener)
    → Apart a ls
    → follow a alive (check_all now ls).1 ≡ some alive
unfolding check_all
follow-check-Apart a alive now [] h = refl
follow-check-Apart a alive now (l ∷ ls) h = ground (arith, follow-check-Apart a alive now ls h.1)

-- What holds of every listener holds of the one that is found.
All-find :
    (P : HbListener → Type 0) (src : NetAddr) (m : HbListener) (ls : List HbListener)
    → All P ls
    → find_by_address src ls ≡ some m
    → P m
unfolding find_by_address
All-find P src m [] h f = absurd (ground arith)
All-find P src m (l ∷ ls) h f = elim (Bool-cases (equal src l.listenaddr)) [
  | inl x ↦ subst P (some_inj.0 (rw (x, find_by_address) at f)) h.0
  | inr x ↦ All-find P src m ls h.1 (rw (x, find_by_address) at f)
]

All-IsWellFormed : (ls : List HbListener) → IsListed ls → All (λ l. IsWellFormed l.listenaddr) ls
All-IsWellFormed [] h = tt
All-IsWellFormed (l ∷ ls) h = (h.0, All-IsWellFormed ls h.2)

-- A listener that is found by one address is found by each address that equals its own.
pub find_equal :
    (a src : NetAddr) (m : HbListener) (ls : List HbListener)
    → IsWellFormed a
    → IsListed ls
    → find_by_address src ls ≡ some m
    → equal a m.listenaddr ≡ true
    → find_by_address a ls ≡ some m
unfolding find_by_address
find_equal a src m [] w h f e = absurd (ground arith)
find_equal a src m (l ∷ ls) w h f e = elim (Bool-cases (equal src l.listenaddr)) [
  | inl x ↦
      let first : l ≡ m = some_inj.0 (rw (x, find_by_address) at f) in
      let here : equal a l.listenaddr ≡ true =
        subst (λ k. equal a k.listenaddr ≡ true) (sym first) e in
      rw (here, find_by_address) (ap some first)
  | inr x ↦
      let later : find_by_address src ls ≡ some m = rw (x, find_by_address) at f in
      let other : equal l.listenaddr m.listenaddr ≡ false =
        All-find (λ k. equal l.listenaddr k.listenaddr ≡ false) src m ls h.1 later in
      let wm = All-find (λ k. IsWellFormed k.listenaddr) src m ls (All-IsWellFormed ls h.2) later in
      let away : equal a l.listenaddr ≡ false = elim (Bool-cases (equal a l.listenaddr)) [
        | inr y ↦ y
        | inl y ↦
            let apart = equal_apart a l.listenaddr m.listenaddr w h.0 wm y other in
            absurd (ground arith)
      ] in
      rw (away, find_by_address) (find_equal a src m ls w h.2 later e)
]

beaten_first :
    (a src : NetAddr) (now : ℕ) (l : HbListener) (ls : List HbListener)
    → equal src l.listenaddr ≡ true
    → find_by_address a (beat_found now src (l ∷ ls))
      ≡ (if equal a l.listenaddr then some (beat now l) else find_by_address a (l ∷ ls))
unfolding find_by_address beat_found beat
beaten_first a src now l ls x = elim (Bool-cases (equal a l.listenaddr)) [
  | inl y ↦ rw (x, y) refl
  | inr y ↦ rw (x, y) refl
]

-- A heartbeat changes the listener that it is for, and no other.
pub find-beat_found :
    (a src : NetAddr) (now : ℕ) (m : HbListener) (ls : List HbListener)
    → IsWellFormed a
    → IsListed ls
    → find_by_address src ls ≡ some m
    → find_by_address a (beat_found now src ls)
      ≡ (if equal a m.listenaddr then some (beat now m) else find_by_address a ls)
unfolding find_by_address beat_found beat
find-beat_found a src now m [] w h f = absurd (ground arith)
find-beat_found a src now m (l ∷ ls) w h f = elim (Bool-cases (equal src l.listenaddr)) [
  | inl x ↦
      let first : l ≡ m = some_inj.0 (rw (x, find_by_address) at f) in
      subst
        (λ k.
          find_by_address a (beat_found now src (l ∷ ls))
          ≡ (if equal a k.listenaddr then some (beat now k) else find_by_address a (l ∷ ls)))
        first (beaten_first a src now l ls x)
  | inr x ↦
      let later : find_by_address src ls ≡ some m = rw (x, find_by_address) at f in
      let other : equal l.listenaddr m.listenaddr ≡ false =
        All-find (λ k. equal l.listenaddr k.listenaddr ≡ false) src m ls h.1 later in
      let wm = All-find (λ k. IsWellFormed k.listenaddr) src m ls (All-IsWellFormed ls h.2) later in
      elim (Bool-cases (equal a l.listenaddr)) [
        | inl y ↦
            let apart = equal_apart a l.listenaddr m.listenaddr w h.0 wm y other in
            rw (x, y, apart) refl
        | inr y ↦ rw (x, y) (find-beat_found a src now m ls w h.2 later)
      ]
]

-- A check at `now` does to what is found what it does to each listener.
pub find-check_all :
    (a : NetAddr) (now : ℕ) (l : HbListener) (ls : List HbListener)
    → find_by_address a ls ≡ some l
    → find_by_address a (check_all now ls).0 ≡ some (check_one now l)
unfolding find_by_address check_all
find-check_all a now l [] f = absurd (ground arith)
find-check_all a now l (m ∷ ls) f = elim (Bool-cases (equal a m.listenaddr)) [
  | inl x ↦
      let first : m ≡ l = some_inj.0 (rw (x, find_by_address) at f) in
      simp (check_one-address now m, x) (ap (λ k. some (check_one now k)) first)
  | inr x ↦
      simp (check_one-address now m, x) (find-check_all a now l ls (rw (x, find_by_address) at f))
]

checked_first :
    (a : NetAddr) (now : ℕ) (m : HbListener) (ls : List HbListener)
    → equal a m.listenaddr ≡ true
    → Apart a ls
    → follow a (is_received m.status) (check_all now (m ∷ ls)).1
      ≡ some (is_received (check_one now m).status)
unfolding check_all check_one is_overdue
checked_first a now m ls x h = ground (
  arith,
  follow-check-Apart a false now ls h,
  follow-check-Apart a (is_received m.status) now ls h,
)

pub follow-check_all :
    (a : NetAddr) (now : ℕ) (l : HbListener) (ls : List HbListener)
    → IsWellFormed a
    → IsListed ls
    → find_by_address a ls ≡ some l
    → follow a (is_received l.status) (check_all now ls).1
      ≡ some (is_received (check_one now l).status)
unfolding find_by_address check_all
follow-check_all a now l [] w h f = absurd (ground arith)
follow-check_all a now l (m ∷ ls) w h f = elim (Bool-cases (equal a m.listenaddr)) [
  | inl x ↦
      let first : m ≡ l = some_inj.0 (rw (x, find_by_address) at f) in
      subst
        (λ k.
          follow a (is_received k.status) (check_all now (m ∷ ls)).1
          ≡ some (is_received (check_one now k).status))
        first (checked_first a now m ls x (Apart-rest a m ls w h x))
  | inr x ↦
      let later = follow-check_all a now l ls w h.2 (rw (x, find_by_address) at f) in
      ground (arith, later)
]
