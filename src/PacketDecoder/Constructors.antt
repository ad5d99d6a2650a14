-- ===== src/PacketDecoder/Constructors.antt =====
-- clientlib/packetdecoder.c: what all constructors of a decoder's table have in common, whatever the
-- type of the frame at hand selects.
use assimilation_official.Common.{
  ℕ, zero, suc, ◌+◌, ◌≡◌, Bool, true, false, some, List, [], ◌∷◌, All, set, get_or, replicate, leb,
  if◌then◌else◌,
}
use assimilation_official.PacketDecoder.{
  Built, Constructor, FrameTypeToFrame, unknownframe_tlvconstructor, max_frametype, fill_map,
  packetdecoder_new, constructor_of,
}

module _ (P : Built → Type 0) where
  -- What the constructor makes has the property.
  abbrev pub Makes : Constructor → Type 0
  Makes make =
      (pkt behind : List ℕ) (tlv : ℕ) (built : Built)
      → make pkt behind tlv ≡ some (some built)
      → P built

  All-set :
      (table : List Constructor) (i : ℕ) (make : Constructor)
      → All Makes table
      → Makes make
      → All Makes (set table i make)
  All-set [] i make t m = t
  All-set (x ∷ table) zero make t m = (m, t.1)
  All-set (x ∷ table) (suc i) make t m = (t.0, All-set table i make t.1 m)

  All-fill_map :
      (framemap : List FrameTypeToFrame) (table : List Constructor)
      → All (λ entry. Makes entry.constructor) framemap
      → All Makes table
      → All Makes (fill_map framemap table)
  unfolding fill_map
  All-fill_map [] table f t = t
  All-fill_map (entry ∷ rest) table f t =
      All-fill_map rest (set table entry.frametype entry.constructor) f.1
        (All-set table entry.frametype entry.constructor t f.0)

  All-replicate : (n : ℕ) (make : Constructor) → Makes make → All Makes (replicate n make)
  All-replicate zero make m = tt
  All-replicate (suc n) make m = (m, All-replicate n make m)

  get_or-Makes :
      (table : List Constructor) (i : ℕ) (make : Constructor)
      → All Makes table
      → Makes make
      → Makes (get_or table i make)
  get_or-Makes [] i make t m = m
  get_or-Makes (x ∷ table) zero make t m = t.0
  get_or-Makes (x ∷ table) (suc i) make t m = get_or-Makes table i make t.1 m

  if-Makes :
      (b : Bool) (make make' : Constructor)
      → Makes make
      → Makes make'
      → Makes (if b then make else make')
  if-Makes true make make' m m' = m
  if-Makes false make make' m m' = m'

  pub constructor_of-Makes :
      (framemap : List FrameTypeToFrame) (frametype : ℕ)
      → All (λ entry. Makes entry.constructor) framemap
      → Makes unknownframe_tlvconstructor
      → Makes (constructor_of (packetdecoder_new framemap) frametype)
  unfolding constructor_of packetdecoder_new
  constructor_of-Makes framemap frametype f m =
      let max : ℕ = max_frametype framemap 0 in
      let table : List Constructor =
        fill_map framemap (replicate (max + 1) unknownframe_tlvconstructor) in
      let inside =
        get_or-Makes table frametype unknownframe_tlvconstructor
          (All-fill_map framemap (replicate (max + 1) unknownframe_tlvconstructor) f
            (All-replicate (max + 1) unknownframe_tlvconstructor m))
          m in
      if-Makes (leb frametype max) (get_or table frametype unknownframe_tlvconstructor)
        unknownframe_tlvconstructor inside m
