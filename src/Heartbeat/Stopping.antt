-- ===== src/Heartbeat/Stopping.antt =====
-- clientlib/hbsender.c: the end of all sending.
use assimilation_official.Common.{
  ℕ, zero, suc, ◌+◌, ◌-◌, ◌≡◌, ◌≤◌, ◌<◌, refl, inl, inr, true, false, Option, some, List, [], ◌∷◌,
  arith, All, Bool-cases, List-cases, ◌==◌, ap, sym, ◌∙◌,
}
use mathlib.Core.Path.{subst}
use assimilation_official.Heartbeat.Senders.{
  HbSender, HbSenders, remove_sender, has_sender, dellist, set_refcount, unref, stopallsenders,
}

abbrev pub IsReferenced : HbSender → Type 0
IsReferenced s = 0 < s.refcount

-- How many references there are to all senders.
abbrev pub references : List HbSender → ℕ
references [] = 0
references (s ∷ rest) = s.refcount + references rest

unref_last :
    (self : HbSenders) (s : HbSender) (rest : List HbSender)
    → self.senders ≡ s ∷ rest
    → s.refcount ≡ 1
    → (unref s self).senders ≡ rest
unfolding unref dellist has_sender remove_sender
unref_last self s rest e r =
    let here : (s.serial == s.serial) ≡ true = ground arith in simp (e, here, r) refl

unref_one :
    (self : HbSenders) (s : HbSender) (rest : List HbSender)
    → self.senders ≡ s ∷ rest
    → 1 < s.refcount
    → (unref s self).senders ≡ record s { refcount = s.refcount - 1 } ∷ rest
unfolding unref set_refcount
unref_one self s rest e r =
    let here : (s.serial == s.serial) ≡ true = ground arith in
    let not0 : (s.refcount == 0) ≡ false = ground arith in
    let not1 : (s.refcount == 1) ≡ false = ground arith in simp (e, here, not0, not1) refl

-- Dropping a reference to the head of the list leaves one less.
record Dropped (n : ℕ) (ls : List HbSender) : Type 0 where
  less : references ls + 1 ≡ n
  kept : All IsReferenced ls

unref_head :
    (self : HbSenders) (s : HbSender) (rest : List HbSender)
    → self.senders ≡ s ∷ rest
    → All IsReferenced (s ∷ rest)
    → Dropped (references (s ∷ rest)) (unref s self).senders
unref_head self s rest e h = elim (Bool-cases (s.refcount == 1)) [
  | inl x ↦
      let one : s.refcount ≡ 1 = ground arith in
      subst (Dropped (references (s ∷ rest))) (sym (unref_last self s rest e one))
        (record { less = omega arith; kept = h.1 })
  | inr x ↦
      let more : 1 < s.refcount = ground (arith, h.0) in
      subst (Dropped (references (s ∷ rest))) (sym (unref_one self s rest e more))
        (record { less = omega arith; kept = (omega arith, h.1) })
]

one_round :
    (self : HbSenders) (s : HbSender) (rest : List HbSender) (rounds : ℕ)
    → self.senders ≡ s ∷ rest
    → stopallsenders (suc rounds) self ≡ stopallsenders rounds (unref s self)
unfolding stopallsenders
one_round self s rest rounds e =
    ap
      (λ k. elim k as (λ x. Option HbSenders) [
        | [] ↦ some self
        | t ∷ r ↦ stopallsenders rounds (unref t self)
      ])
      e

-- `hbsender_stopallsenders` ends, with no senders left, after as many rounds as there are references
-- to senders, when each sender on the list is referenced.
pub stopallsenders_total :
    (self : HbSenders) (rounds : ℕ)
    → All IsReferenced self.senders
    → references self.senders ≤ rounds
    → (after : HbSenders) × (stopallsenders rounds self ≡ some after) × (after.senders ≡ [])
unfolding stopallsenders
stopallsenders_total self zero h l = elim (List-cases self.senders) [
  | inl e ↦ (self, simp (e, stopallsenders) refl, e)
  | inr (s, rest, e) ↦
      let first = rw e at h in absurd (omega (arith, first.0, subst (λ k. references k ≤ 0) e l))
]
stopallsenders_total self (suc rounds) h l = elim (List-cases self.senders) [
  | inl e ↦ (self, simp (e, stopallsenders) refl, e)
  | inr (s, rest, e) ↦
      let first : All IsReferenced (s ∷ rest) = subst (All IsReferenced) e h in
      let bound : references (s ∷ rest) ≤ suc rounds = subst (λ k. references k ≤ suc rounds) e l in
      let d = unref_head self s rest e first in
      let less = d.less in
      let (after, stops, empty) = stopallsenders_total (unref s self) rounds d.kept (omega arith) in
      (after, one_round self s rest rounds e ∙ stops, empty)
]
