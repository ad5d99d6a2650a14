-- ===== src/FsQueue/Keeps.antt =====
-- What `_fsqueue_inqsorted` (clientlib/fsqueue.c) leaves alone while no later session comes in.
use assimilation_official.Common.{
  ◌≤◌, ◌<◌, ◌≡◌, refl, ◌⊎◌, inl, inr, Bool, some, List, [], ◌∷◌, arith, All, sym,
}
use mathlib.Core.Path.{subst}
use assimilation_official.Seqno.{Seqno}
use assimilation_official.FsQueue.{FsQueue, insert_sorted, inqsorted, inq_sequenced, check_session}
use assimilation_official.FsQueue.Frames.{FrameSet, getseqno}

insert_sorted_one :
    (seqno : Seqno) (fs : FrameSet) {q' : List FrameSet}
    → insert_sorted seqno fs [] ≡ some q'
    → fs ∷ [] ≡ q'
unfolding insert_sorted
insert_sorted_one seqno fs e = ground arith

insert_sorted_step :
    (seqno : Seqno) (fs this : FrameSet) (q : List FrameSet) {q' : List FrameSet}
    → insert_sorted seqno fs (this ∷ q) ≡ some q'
    → (q' ≡ fs ∷ this ∷ q)
      ⊎ (q' ≡ this ∷ q)
      ⊎ ((r : List FrameSet) × (insert_sorted seqno fs q ≡ some r) × (q' ≡ this ∷ r))
unfolding insert_sorted
insert_sorted_step seqno fs this q e = ground arith

-- Insertion brings in no frameset but the one given.
insert_sorted-All {κ} :
    (P : FrameSet → Type κ) (seqno : Seqno) (fs : FrameSet) (q : List FrameSet) {q' : List FrameSet}
    → P fs
    → All P q
    → insert_sorted seqno fs q ≡ some q'
    → All P q'
insert_sorted-All P seqno fs [] p ps e = subst (All P) (insert_sorted_one seqno fs e) (p, tt)
insert_sorted-All P seqno fs (this ∷ q) p ps e = elim (insert_sorted_step seqno fs this q e) [
  | inl h ↦ subst (All P) (sym h) (p, ps)
  | inr (inl h) ↦ subst (All P) (sym h) ps
  | inr (inr (r, i, h)) ↦ subst (All P) (sym h) (ps.0, insert_sorted-All P seqno fs q p ps.1 i)
]

inqsorted_step :
    (self : FsQueue) (seqno : Seqno) (fs : FrameSet) {b : Bool} {after : FsQueue}
    → getseqno fs ≡ some seqno
    → 0 < self.sessionid
    → seqno.sessionid ≤ self.sessionid
    → inqsorted self fs ≡ some (b, after)
    → (after ≡ self)
      ⊎ ((q' : List FrameSet) × (insert_sorted seqno fs self.q ≡ some q')
          × (after ≡ record self { q = q' }))
unfolding inqsorted check_session inq_sequenced
inqsorted_step self seqno fs e h0 hs r = ground arith

pub inqsorted_keeps :
    (P : FrameSet → Type 0) (self : FsQueue) (seqno : Seqno) (fs : FrameSet) {b : Bool}
    {after : FsQueue}
    → getseqno fs ≡ some seqno
    → 0 < self.sessionid
    → seqno.sessionid ≤ self.sessionid
    → P fs
    → All P self.q
    → inqsorted self fs ≡ some (b, after)
    → (after.nextseqno ≡ self.nextseqno) × (after.sessionid ≡ self.sessionid) × All P after.q
inqsorted_keeps P self seqno fs e h0 hs p ps r = elim (inqsorted_step self seqno fs e h0 hs r) [
  | inl h ↦ rw h (refl, refl, ps)
  | inr (q', i, h) ↦ rw h (refl, refl, insert_sorted-All P seqno fs self.q p ps i)
]
