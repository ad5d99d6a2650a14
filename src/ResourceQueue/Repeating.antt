-- ===== src/ResourceQueue/Repeating.antt =====
-- clientlib/resourcequeue.c: what becomes of a request that is repeated.
use assimilation_official.Common.{
  ℕ, ◌+◌, ◌*◌, ◌^◌, ◌<◌, ◌≡◌, refl, ap, ◌∙◌, ◌≢◌, ◌⊎◌, ◌↔◌, inl, inr, Bool, true, false, none, some,
  List, [], ◌∷◌, ◌++◌, ℤ, arith, Bool-cases, ◌==◌, to_signed, to_unsigned,
}
use assimilation_official.ResourceQueue.{RscQElem, ResourceQueue, HowDied, queue_of, without}
use assimilation_official.ResourceQueue.Run.{
  find_serial, find_elem, requeued, should_repeat, should_notify, Ended, child_notify, is_zero,
}
use assimilation_official.ResourceQueue.Ending.{located}
use assimilation_official.ResourceQueue.Reached.{Reached, Reached-IsSound}
use assimilation_official.ResourceQueue.Progress.{stopped, child_notify-result}

-- An element that is found is taken out from between the others.
find_serial-without :
    (serial : ℕ) (e : RscQElem) (q : List RscQElem)
    → find_serial serial q ≡ some e
    → (before : List RscQElem) × (after : List RscQElem) × (q ≡ before ++ e ∷ after)
      × (without serial q ≡ before ++ after)
unfolding find_serial without
find_serial-without serial e [] h = absurd (ground (arith, h))
find_serial-without serial e (f ∷ q) h = elim (Bool-cases (serial == f.serial)) [
  | inl x ↦ let same : f ≡ e = ground (arith, h, x) in ([], q, ap (λ g. g ∷ q) same, rw x refl)
  | inr x ↦
      let rest = find_serial-without serial e q (ground (arith, h, x)) in
      (f ∷ rest.0, rest.1, ap (λ l. f ∷ l) rest.2, rw x (ap (λ l. f ∷ l) rest.3))
]

-- `ok` says whether the operation exited with zero.
abbrev Says : Bool → HowDied → Type 0
Says ok exittype = (ok ≡ true) ↔ (exittype ≡ HowDied.exited_zero)

is_zero_iff : (exittype : HowDied) → Says (is_zero exittype) exittype
is_zero_iff exittype = ground arith

is_zero_lem : (exittype : HowDied) (ok : Bool) → Says ok exittype → is_zero exittype ≡ ok
is_zero_lem exittype ok h = ground (arith, h, is_zero_iff exittype)

-- The request as it waits again: not running, with the result of this time, and due after its interval.
abbrev pub waiting_again : ℕ → Bool → ℕ → RscQElem → RscQElem
waiting_again now ok seconds e = record e {
  queuetime = now;
  cmd = record e.cmd {
    is_running = false;
    last_success = ok;
    starttime = ℤ.pos (now + seconds * 1000000);
  };
}

module _ (now : ℕ) (exittype : HowDied) (e : RscQElem) (ok : Bool) (seconds : ℕ)
    (says : Says ok exittype) (interval : e.repeatinterval ≡ ℤ.pos seconds) where
  stopped-requeued :
      now + seconds * 1000000 < 2 ^ 63
      → stopped (requeued now exittype e) ≡ waiting_again now ok seconds e
  unfolding requeued
  stopped-requeued h =
      let due : to_signed 63 (now + to_unsigned 64 e.repeatinterval * 1000000)
          ≡ ℤ.pos (now + seconds * 1000000) =
        rw interval (ground arith) in
      simp (due, is_zero_lem exittype ok says) refl

  repeats :
      0 < seconds
      → e.cancelme ≡ false
      → (e.cancelonfail ≡ false) ⊎ (ok ≡ true)
      → should_repeat exittype e ≡ true
  unfolding should_repeat
  repeats p c f = ground (arith, p, c, f, interval, is_zero_lem exittype ok says)

  calls_none :
      should_repeat exittype e ≡ true → ok ≡ e.cmd.last_success → should_notify exittype e ≡ false
  unfolding should_notify
  calls_none r s = ground (arith, r, s, is_zero_lem exittype ok says)

  calls_some : ok ≢ e.cmd.last_success → should_notify exittype e ≡ true
  unfolding should_notify
  calls_some s = ground (arith, s, is_zero_lem exittype ok says)

-- In a reached state that is not shutting down, a running command ends whose request has an interval of
-- a second or more, was not cancelled, and is not one to be cancelled on the failure that it had. The
-- request goes from its place to the end of its resource's queue, behind the others, which keep their
-- order; it is not running, has the result of this time for its last one, and is due after its interval,
-- counted from now on. Nothing of that resource is started. The requestor is called when the result is
-- not what it was the last time, and not called when it is.
pub child_notify-requeued :
    (spawn : RscQElem → Bool) (now : ℕ) (exittype : HowDied) (serial : ℕ) (e : RscQElem)
    (self : ResourceQueue) (cb : ℕ) (ok : Bool) (seconds : ℕ)
    → Reached self
    → find_elem serial self.resources ≡ some e
    → e.cmd.is_running ≡ true
    → self.shuttingdown ≡ false
    → e.callback ≡ some cb
    → (ok ≡ true) ↔ (exittype ≡ HowDied.exited_zero)
    → e.repeatinterval ≡ ℤ.pos seconds
    → 0 < seconds
    → now + seconds * 1000000 < 2 ^ 63
    → e.cancelme ≡ false
    → (e.cancelonfail ≡ false) ⊎ (ok ≡ true)
    → (after : Ended) × (before : List RscQElem) × (rest : List RscQElem) × (child_notify spawn now
          exittype serial self
        ≡ some after)
      × (queue_of e.cmd.resourcename self.resources ≡ before ++ e ∷ rest)
      × (queue_of e.cmd.resourcename after.queue.resources
          ≡ (before ++ rest) ++ waiting_again now ok seconds e ∷ [])
      × (ok ≡ e.cmd.last_success → after.called ≡ none)
      × (ok ≢ e.cmd.last_success → after.called ≡ some cb)
child_notify-requeued spawn now exittype serial e self cb ok seconds r f run s c says interval p h u
      v =
    let repeat = repeats now exittype e ok seconds says interval p u v in
    let l = located serial e self.resources (Reached-IsSound self r).table f in
    let old : List RscQElem = queue_of e.cmd.resourcename self.resources in
    let place = find_serial-without serial e old l.inside in
    let done = child_notify-result spawn now exittype serial e self cb r f run s c repeat in
    (
      done.0,
      place.0,
      place.1,
      done.1,
      place.2,
      done.3
          ∙ ap (λ q. q ++ stopped (requeued now exittype e) ∷ []) place.3
          ∙ ap (λ again. (place.0 ++ place.1) ++ again ∷ [])
              (stopped-requeued now exittype e ok seconds says interval h),
      λ k. done.2 ∙ rw (calls_none now exittype e ok seconds says interval repeat k) refl,
      λ k. done.2 ∙ rw (calls_some now exittype e ok seconds says interval k) refl,
    )
