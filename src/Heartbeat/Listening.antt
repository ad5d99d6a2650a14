-- ===== src/Heartbeat/Listening.antt =====
-- clientlib/hblistener.c: what every sequence of its operations keeps.
use assimilation_official.Common.{
  ℕ, ◌+◌, ◌≡◌, ◌≤◌, ◌<◌, refl, inl, inr, Bool, true, Option, some, List, [], ◌∷◌, arith, not, ◌&&◌,
  ltb, Bool-cases, Option-cases, List-cases, length, sym, ℤ,
}
use mathlib.Core.Path.{subst}
use assimilation_official.NetAddr.{NetAddr}
use assimilation_official.NetAddr.Canonical.{IsWellFormed}
use assimilation_official.Heartbeat.{
  no_listeners, sub64, onesec, HbListener, HbListeners, find_by_address, remove_found, make_ready,
  addlist, unlisten, hblistener_new, set_deadtime, set_warntime, check_all, checktimeouts,
  beat_found, got_frameset,
}
use assimilation_official.Heartbeat.Timers.{shutdown, gsourcefunc}
use mathlib.Core.Path.{subst}
use assimilation_official.Heartbeat.Unique.{
  Apart, IsListed, Apart-none, remove_found-IsListed, removed-Apart, check_all-IsListed,
  beat_found-IsListed,
}

-- Listeners in order: one for each address, counted, and with a timer while there is one.
pub record IsListening (self : HbListeners) : Type 0 where
  pub listed : IsListed self.listeners
  pub timed : 0 < length self.listeners → 0 < length self.sources
  pub counted : length self.listeners ≤ self.count

length-remove_found :
    (which : NetAddr) (l : HbListener) (ls : List HbListener)
    → find_by_address which ls ≡ some l
    → length (remove_found which ls) + 1 ≡ length ls
unfolding find_by_address remove_found
length-remove_found which l [] h = absurd (ground arith)
length-remove_found which l (m ∷ ls) h = ground (arith, length-remove_found which l ls)

pub unlisten-IsListening :
    (which : NetAddr) (self : HbListeners) → IsListening self → IsListening (unlisten which self)
unfolding unlisten
unlisten-IsListening which self s = elim (Option-cases (find_by_address which self.listeners)) [
  | inl x ↦ rw (x, unlisten) s
  | inr (old, x) ↦
      let shorter = length-remove_found which old self.listeners x in
      let counted = s.counted in
      rw (x, unlisten)
        (record {
          listed = remove_found-IsListed which self.listeners s.listed;
          timed = λ h. s.timed (omega arith);
          counted = omega arith;
        })
]

-- Listeners that a new one for an address can be put before.
record IsReady (which : NetAddr) (self : HbListeners) : Type 0 where
  listed : IsListed self.listeners
  apart : Apart which self.listeners
  timed : 0 < length self.sources
  counted : length self.listeners ≤ self.count

unlisten-IsReady :
    (which : NetAddr) (self : HbListeners)
    → IsListening self
    → IsWellFormed which
    → 0 < length self.listeners
    → IsReady which (unlisten which self)
unfolding unlisten
unlisten-IsReady which self s w n = elim (Option-cases (find_by_address which self.listeners)) [
  | inl x ↦
      rw (x, unlisten)
        (record {
          listed = s.listed;
          apart = Apart-none which self.listeners x;
          timed = s.timed n;
          counted = s.counted;
        })
  | inr (old, x) ↦
      let shorter = length-remove_found which old self.listeners x in
      let counted = s.counted in
      rw (x, unlisten)
        (record {
          listed = remove_found-IsListed which self.listeners s.listed;
          apart = removed-Apart which self.listeners w s.listed;
          timed = s.timed n;
          counted = omega arith;
        })
]

make_ready-IsReady :
    (which : NetAddr) (self : HbListeners)
    → IsListening self
    → IsWellFormed which
    → IsReady which (make_ready which self)
unfolding make_ready
make_ready-IsReady which self s w = elim (List-cases self.listeners) [
  | inl e ↦
      rw (e, make_ready)
        (record { listed = s.listed; apart = rw e tt; timed = omega arith; counted = s.counted })
  | inr (first, rest, e) ↦
      let made : make_ready which self ≡ unlisten which self = simp (e, make_ready) refl in
      subst (IsReady which) (sym made) (unlisten-IsReady which self s w (rw e (omega arith)))
]

pub addlist-IsListening :
    (l : HbListener) (self : HbListeners)
    → IsListening self
    → IsWellFormed l.listenaddr
    → IsListening (addlist l self)
unfolding addlist
addlist-IsListening l self s w =
    let r = make_ready-IsReady l.listenaddr self s w in
    let counted = r.counted in
    record { listed = (w, r.apart, r.listed); timed = λ h. r.timed; counted = omega arith }

length-check_all : (now : ℕ) (ls : List HbListener) → length (check_all now ls).0 ≡ length ls
unfolding check_all
length-check_all now [] = refl
length-check_all now (l ∷ ls) = omega (arith, length-check_all now ls)

length-beat_found :
    (now : ℕ) (src : NetAddr) (ls : List HbListener) → length (beat_found now src ls) ≡ length ls
unfolding beat_found
length-beat_found now src [] = refl
length-beat_found now src (l ∷ ls) = ground (arith, length-beat_found now src ls)

-- New listeners, of the same addresses, for the old ones.
other-IsListening :
    (self : HbListeners) (last : ℕ) (ls : List HbListener)
    → IsListening self
    → IsListed ls
    → length ls ≡ length self.listeners
    → IsListening (record self { listeners = ls; lastcheck = last })
other-IsListening self last ls s h n =
    let counted = s.counted in
    record { listed = h; timed = λ l. s.timed (omega arith); counted = omega arith }

checktimeouts-IsListening :
    (now : ℕ) (urgent : Bool) (self : HbListeners)
    → IsListening self
    → IsListening (checktimeouts now urgent self).0
unfolding checktimeouts
checktimeouts-IsListening now urgent self s =
    elim (Bool-cases (not urgent && ltb (sub64 now self.lastcheck) onesec)) [
      | inl x ↦ rw (x, checktimeouts) s
      | inr x ↦
          rw (x, checktimeouts)
            (other-IsListening self now (check_all now self.listeners).0 s
              (check_all-IsListed now self.listeners s.listed)
              (length-check_all now self.listeners))
    ]

got_frameset-IsListening :
    (now : ℕ) (src : NetAddr) (self : HbListeners)
    → IsListening self
    → IsListening (got_frameset now src self).0
unfolding got_frameset
got_frameset-IsListening now src self s = elim (Option-cases (find_by_address src self.listeners)) [
  | inl x ↦ rw (x, got_frameset) s
  | inr (l, x) ↦
      rw (x, got_frameset)
        (other-IsListening self self.lastcheck (beat_found now src self.listeners) s
          (beat_found-IsListed now src self.listeners s.listed)
          (length-beat_found now src self.listeners))
]

shutdown-IsListening : (self : HbListeners) → IsListening (shutdown self)
unfolding shutdown
shutdown-IsListening self = record {
  listed = tt;
  timed = λ h. absurd (omega arith);
  counted = omega arith;
}

gsourcefunc-IsListening :
    (now id : ℕ) (self : HbListeners) → IsListening self → IsListening (gsourcefunc now id self).0
unfolding gsourcefunc
gsourcefunc-IsListening now id self s =
    elim (List-cases (checktimeouts now true self).0.listeners) [
      | inl e ↦ rw (e, gsourcefunc) (shutdown-IsListening _)
      | inr (l, ls, e) ↦
          let after : (gsourcefunc now id self).0 ≡ (checktimeouts now true self).0 =
            simp (e, gsourcefunc) refl in
          subst IsListening (sym after) (checktimeouts-IsListening now true self s)
    ]

-- What a sequence of operations leads to. `hblistener_new` is given well-formed addresses.
pub data Listening : HbListeners → Type 0 where
  started : (callback : Option ℕ) → Listening (no_listeners callback)
  listened :
      {self : HbListeners}
      → Listening self
      → (now : ℕ) (a : NetAddr) (timeout warntime : ℤ) → IsWellFormed a
      → Listening (hblistener_new now a timeout warntime self)
  unlistened : {self : HbListeners} → Listening self → (a : NetAddr) → Listening (unlisten a self)
  heard :
      {self : HbListeners}
      → Listening self
      → (now : ℕ) (a : NetAddr) → Listening (got_frameset now a self).0
  fired :
      {self : HbListeners} → Listening self → (now id : ℕ) → Listening (gsourcefunc now id self).0
  checked :
      {self : HbListeners}
      → Listening self
      → (now : ℕ) (urgent : Bool) → Listening (checktimeouts now urgent self).0
  ended : {self : HbListeners} → Listening self → Listening (shutdown self)

-- Whatever is listened to, heard and timed out, in any order, with well-formed addresses to listen
-- to: there is one listener for an address at most, a timer is there while there is a listener, and
-- the counter is no less than the number of listeners.
pub Listening-IsListening : (self : HbListeners) → Listening self → IsListening self
unfolding hblistener_new set_deadtime set_warntime
Listening-IsListening _ (started cb) = record {
  listed = tt;
  timed = λ h. absurd (omega arith);
  counted = omega arith;
}
Listening-IsListening _ (listened r now a timeout warntime w) =
    addlist-IsListening _ _ (Listening-IsListening _ r) w
Listening-IsListening _ (unlistened r a) = unlisten-IsListening a _ (Listening-IsListening _ r)
Listening-IsListening _ (heard r now a) =
    got_frameset-IsListening now a _ (Listening-IsListening _ r)
Listening-IsListening _ (fired r now id) =
    gsourcefunc-IsListening now id _ (Listening-IsListening _ r)
Listening-IsListening _ (checked r now urgent) =
    checktimeouts-IsListening now urgent _ (Listening-IsListening _ r)
Listening-IsListening _ (ended r) = shutdown-IsListening _
