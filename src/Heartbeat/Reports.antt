-- ===== src/Heartbeat/Reports.antt =====
-- clientlib/hblistener.c: the reports of a node's death and return, over any run of heartbeats and
-- checks.
use assimilation_official.Common.{
  ℕ, ◌+◌, ◌^◌, ◌≡◌, ◌<◌, refl, inl, inr, Bool, true, false, not, ◌&&◌, some, List, [], ◌∷◌, ◌++◌,
  arith, Bool-cases, Option-cases, sym, ◌∙◌, ap, ltb, if◌then◌else◌,
}
use mathlib.Core.Path.{subst}
use mathlib.Core.Option.{some_inj}
use assimilation_official.NetAddr.{NetAddr, equal}
use assimilation_official.NetAddr.Canonical.{IsWellFormed}
use assimilation_official.Heartbeat.{
  HbListener, HbListeners, Report, find_by_address, is_received, is_overdue, check_one,
  checktimeouts, beat, beat_reports, beat_found, got_frameset, sub64, onesec,
}
use assimilation_official.Heartbeat.Unique.{beat_found-IsListed}
use assimilation_official.Heartbeat.Listening.{Listening, Listening-IsListening}
use assimilation_official.Heartbeat.Deaths.{
  follow, find-beat_found, find-check_all, follow-check_all, find_equal,
}

-- What happens to the listeners, and a run of it.
pub data Happening : Type 0 where
  beats : ℕ → NetAddr → Happening
  checks : ℕ → Bool → Happening

abbrev pub happen : Happening → HbListeners → HbListeners × List Report
happen (Happening.beats now src) self = got_frameset now src self
happen (Happening.checks now urgent) self = checktimeouts now urgent self

abbrev pub run : List Happening → HbListeners → HbListeners × List Report
run [] self = (self, [])
run (h ∷ hs) self =
    let once : HbListeners × List Report = happen h self in
    let rest : HbListeners × List Report = run hs once.0 in (rest.0, once.1 ++ rest.1)

follow-append :
    (a : NetAddr) (alive after : Bool) (rs more : List Report)
    → follow a alive rs ≡ some after
    → follow a alive (rs ++ more) ≡ follow a after more
follow-append a alive after [] more h = ap (λ b. follow a b more) (some_inj.0 h)
follow-append a alive after (r ∷ rs) more h = ground (
  arith,
  follow-append a false after rs more,
  follow-append a true after rs more,
  follow-append a alive after rs more,
)

find-equal :
    (src : NetAddr) (m : HbListener) (ls : List HbListener)
    → find_by_address src ls ≡ some m
    → equal src m.listenaddr ≡ true
unfolding find_by_address
find-equal src m [] h = absurd (ground arith)
find-equal src m (l ∷ ls) h = elim (Bool-cases (equal src l.listenaddr)) [
  | inl x ↦ subst (λ k. equal src k.listenaddr ≡ true) (some_inj.0 (rw (x, find_by_address) at h)) x
  | inr x ↦ find-equal src m ls (rw (x, find_by_address) at h)
]

-- The listener that an address has after a step, in the status that the reports of the step say.
record Followed (a : NetAddr) (alive : Bool) (after : HbListeners × List Report) : Type 0 where
  listener : HbListener
  found : find_by_address a after.0.listeners ≡ some listener
  agrees : follow a alive after.1 ≡ some (is_received listener.status)

check-Followed :
    (a : NetAddr) (now : ℕ) (urgent : Bool) (self : HbListeners) (l : HbListener)
    → IsWellFormed a
    → Listening self
    → find_by_address a self.listeners ≡ some l
    → Followed a (is_received l.status) (checktimeouts now urgent self)
unfolding checktimeouts
check-Followed a now urgent self l w r f =
    elim (Bool-cases (not urgent && ltb (sub64 now self.lastcheck) onesec)) [
      | inl x ↦ rw (x, checktimeouts) (record { listener = l; found = f; agrees = refl })
      | inr x ↦
          rw (x, checktimeouts)
            (record {
              listener = check_one now l;
              found = find-check_all a now l self.listeners f;
              agrees =
                  follow-check_all a now l self.listeners w (Listening-IsListening self r).listed f;
            })
    ]

follow-beat_reports :
    (a : NetAddr) (now : ℕ) (m : HbListener) (alive : Bool)
    → (equal a m.listenaddr ≡ true → alive ≡ is_received m.status)
    → follow a alive (beat_reports now m) ≡ some (if equal a m.listenaddr then true else alive)
unfolding beat_reports
follow-beat_reports a now m alive h = ground arith

got-Followed :
    (a : NetAddr) (now : ℕ) (src : NetAddr) (self : HbListeners) (l : HbListener)
    → IsWellFormed a
    → Listening self
    → find_by_address a self.listeners ≡ some l
    → Followed a (is_received l.status) (got_frameset now src self)
unfolding got_frameset beat
got-Followed a now src self l w r f = elim (Option-cases (find_by_address src self.listeners)) [
  | inl x ↦ rw (x, got_frameset) (record { listener = l; found = f; agrees = refl })
  | inr (m, x) ↦
      let listed = (Listening-IsListening self r).listed in
      let same_listener : equal a m.listenaddr ≡ true → m ≡ l =
        λ e. some_inj.0 (sym (find_equal a src m self.listeners w listed x e) ∙ f) in
      let told =
        follow-beat_reports a now m (is_received l.status)
          (λ e. ap (λ k. is_received k.status) (sym (same_listener e))) in
      let found = find-beat_found a src now m self.listeners w listed x in
      elim (Bool-cases (equal a m.listenaddr)) [
        | inl e ↦
            rw (x, got_frameset)
              (record {
                listener = beat now m;
                found = found ∙ rw e refl;
                agrees = told ∙ rw e refl;
              })
        | inr e ↦
            rw (x, got_frameset)
              (record { listener = l; found = found ∙ rw e f; agrees = told ∙ rw e refl })
      ]
]

happen-Followed :
    (a : NetAddr) (h : Happening) (self : HbListeners) (l : HbListener)
    → IsWellFormed a
    → Listening self
    → find_by_address a self.listeners ≡ some l
    → Followed a (is_received l.status) (happen h self)
happen-Followed a (Happening.beats now src) self l w r f = got-Followed a now src self l w r f
happen-Followed a (Happening.checks now urgent) self l w r f =
    check-Followed a now urgent self l w r f

happen-Listening :
    (h : Happening) (self : HbListeners) → Listening self → Listening (happen h self).0
happen-Listening (Happening.beats now src) self r = Listening.heard r now src
happen-Listening (Happening.checks now urgent) self r = Listening.checked r now urgent

-- Over any run of heartbeats and checks, from a state that was reached, the reports about a node that
-- is listened to alternate: it is reported dead only when it is thought alive, and alive again only
-- when it is thought dead; and its status at the end is what the last report says.
pub run_alternates :
    (a : NetAddr) (hs : List Happening) (self : HbListeners) (l : HbListener)
    → IsWellFormed a
    → Listening self
    → find_by_address a self.listeners ≡ some l
    → (after : HbListener) × (find_by_address a (run hs self).0.listeners ≡ some after)
      × (follow a (is_received l.status) (run hs self).1 ≡ some (is_received after.status))
run_alternates a [] self l w r f = (l, f, refl)
run_alternates a (h ∷ hs) self l w r f =
    let step = happen-Followed a h self l w r f in
    let (after, found, told) =
      run_alternates a hs (happen h self).0 step.listener w (happen-Listening h self r)
        step.found in
    (
      after,
      found,
      follow-append a (is_received l.status) (is_received step.listener.status) (happen h self).1
            (run hs (happen h self).0).1 step.agrees
          ∙ told,
    )

beaten_status :
    (t0 t1 : ℕ) (l : HbListener)
    → t0 + l.expected_interval < 2 ^ 64
    → is_received (check_one t1 (beat t0 l)).status ≡ not (ltb (t0 + l.expected_interval) t1)
unfolding check_one is_overdue beat
beaten_status t0 t1 l b = ground arith

-- After a heartbeat at `t0` from a node that is listened to, whose interval does not run past the end
-- of time, a check at `t1` reports it dead exactly when its interval is over by then.
pub deadline_lem :
    (src : NetAddr) (t0 t1 : ℕ) (self : HbListeners) (l : HbListener)
    → IsWellFormed src
    → Listening self
    → find_by_address src self.listeners ≡ some l
    → t0 + l.expected_interval < 2 ^ 64
    → follow src true (checktimeouts t1 true (got_frameset t0 src self).0).1
      ≡ some (not (ltb (t0 + l.expected_interval) t1))
unfolding checktimeouts got_frameset beat
deadline_lem src t0 t1 self l w r f b =
    let listed = (Listening-IsListening self r).listed in
    let found : find_by_address src (beat_found t0 src self.listeners) ≡ some (beat t0 l) =
      find-beat_found src src t0 l self.listeners w listed f
      ∙ rw (find-equal src l self.listeners f) refl in
    let told =
      follow-check_all src t1 (beat t0 l) (beat_found t0 src self.listeners) w
        (beat_found-IsListed t0 src self.listeners listed) found in
    rw (f, got_frameset) (told ∙ ap some (beaten_status t0 t1 l b))
