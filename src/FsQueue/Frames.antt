-- ===== src/FsQueue/Frames.antt =====
-- clientlib/frameset.c: a frameset as a list of frames, and where its sequence number is found.
-- The numbers of frame and frameset types are those of cma/frameinfo.py.
use assimilation_official.Common.{
  ℕ, ◌≡◌, refl, Bool, true, false, Option, none, some, List, [], ◌∷◌, ◌++◌, arith, ltb,
  if◌then◌else◌,
}
use assimilation_official.Seqno.{Seqno}

-- A frame as the protocol sees it: a SeqnoFrame of type REQID, a CryptFrame with its sender's key
-- id, and any other frame by its type.
pub data Frame : Type 0 where
  seqno : Seqno → Frame
  crypt : Option ℕ → Frame
  other : ℕ → Frame

-- `struct _FrameSet`; `seqframe` is the cache that `getseqno` fills.
pub record FrameSet : Type 0 where
  pub fstype : ℕ
  pub framelist : List Frame
  pub seqframe : Option Seqno

abbrev pub is_some {ℓ} : {A : Type ℓ} → Option A → Bool
is_some none = false
is_some (some a) = true

abbrev pub fstype_ack : ℕ
fstype_ack = 16

abbrev pub fstype_connshut : ℕ
fstype_connshut = 17

abbrev pub fstype_connnak : ℕ
fstype_connnak = 18

abbrev pub min_seqframeset : ℕ
min_seqframeset = fstype_ack

-- `frameset_new`
pub frameset_new : ℕ → FrameSet
frameset_new fstype = record { fstype = fstype; framelist = []; seqframe = none }

pub seqframe-frameset_new : (fstype : ℕ) → (frameset_new fstype).seqframe ≡ none
unfolding frameset_new
seqframe-frameset_new fstype = refl

-- `frameset_prepend_frame`
unfoldable pub prepend_frame : FrameSet → Frame → FrameSet
prepend_frame fs f = record fs { framelist = f ∷ fs.framelist }

-- `frameset_append_frame`
unfoldable pub append_frame : FrameSet → Frame → FrameSet
append_frame fs f = record fs { framelist = fs.framelist ++ (f ∷ []) }

-- The loop of `_frameset_getseqno`: the first frame of type REQID.
unfoldable pub find_seqno : List Frame → Option Seqno
find_seqno [] = none
find_seqno (Frame.seqno s ∷ rest) = some s
find_seqno (Frame.crypt k ∷ rest) = find_seqno rest
find_seqno (Frame.other t ∷ rest) = find_seqno rest

-- The value that `_frameset_getseqno` returns. Its cache is `cache_seqno`.
unfoldable pub getseqno : FrameSet → Option Seqno
unfolding find_seqno
getseqno self = elim self.seqframe [
  | some s ↦ some s
  | none ↦ if ltb self.fstype min_seqframeset then none else find_seqno self.framelist
]

-- The frameset as `_frameset_getseqno` leaves it.
cache_seqno : FrameSet → FrameSet
cache_seqno self = record self { seqframe = getseqno self }

-- The cache is never seen: a second call finds what the first one found.
getseqno-cache_seqno : (fs : FrameSet) → getseqno (cache_seqno fs) ≡ getseqno fs
unfolding cache_seqno getseqno
getseqno-cache_seqno fs = ground arith

-- A sequence number put in front of a frameset of a sequenced type is the one that is found.
pub getseqno-prepend_frame :
    (fs : FrameSet) (s : Seqno)
    → fs.seqframe ≡ none
    → getseqno (prepend_frame fs (Frame.seqno s))
      ≡ (if ltb fs.fstype min_seqframeset then none else some s)
unfolding getseqno prepend_frame
getseqno-prepend_frame fs s h = ground arith
