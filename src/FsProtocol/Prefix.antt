-- ===== src/FsProtocol/Prefix.antt =====
-- The two ends of a connection of clientlib/fsprotocol.c as one channel: what is read is a prefix of
-- what was accepted.
use assimilation_official.Common.{
  ℕ, ◌≤◌, ◌<◌, ◌≡◌, refl, inl, inr, List, [], ◌∷◌, ◌++◌, arith, All, sym, ap,
}
use mathlib.Core.Path.{ap₂}
use native.Mathlib.Decide.{dec_lt}
use assimilation_official.FsQueue.{FsQueue}
use assimilation_official.FsQueue.Frames.{FrameSet}
use assimilation_official.FsQueue.Input.{IsInput}
use assimilation_official.FsQueue.Output.{IsOutput}
use assimilation_official.FsProtocol.Delivery.{CountDown}
use assimilation_official.FsProtocol.Channel.{
  In, Given, Channel, Carried, Channel-Carried, In-Given,
}

Given-length : (s first next : ℕ) (l : List FrameSet) → Given s first next l → first ≤ next
Given-length s first next [] h = omega arith
Given-length s first next (f ∷ l) (seq, e, es, en, rest) =
    omega (arith, Given-length s first seq.reqid l rest)

-- The newest frameset of a list has the highest number, so older framesets are among the older ones.
older-Given :
    (s first n m : ℕ) (a : FrameSet) (l read : List FrameSet)
    → Given s first n (a ∷ l)
    → CountDown first m read
    → m < n
    → All (λ f. In f (a ∷ l)) read
    → All (λ f. In f l) read
older-Given s first n m a l [] g c h i = tt
older-Given s first n m a l (f ∷ read) g (seq, e, em, c) h (inl same, i) =
    let (seq', e', es, en, rest) = g in absurd (ground (arith, same))
older-Given s first n m a l (f ∷ read) g (seq, e, em, c) h (inr other, i) =
    (other, older-Given s first n seq.reqid a l read g c (omega arith) i)

-- The number of a frameset that is read is one of those given out.
read_bound :
    (s first n m : ℕ) (l : List FrameSet) (f : FrameSet) (read : List FrameSet)
    → Given s first n l
    → CountDown first m (f ∷ read)
    → In f l
    → m ≤ n
read_bound s first n m l f read g (seq, e, em, c) i =
    let (seq', e', es, lt') = In-Given s first n l f g i in ground arith

-- Framesets of all the numbers given out are all the framesets.
every_read :
    (s first n : ℕ) (l read : List FrameSet)
    → Given s first n l
    → CountDown first n read
    → All (λ f. In f l) read
    → l ≡ read
every_read s first n [] [] g c i = refl
every_read s first n [] (f ∷ read) g c i = elim i.0 [ ]
every_read s first n (a ∷ l) [] (seq, e, es, en, rest) c i =
    absurd (omega (arith, Given-length s first seq.reqid l rest))
every_read s first n (a ∷ l) (f ∷ read) g (seq, e, em, c) (inl same, i) =
    let (seq', e', es, en, rest) = g in
    let same_number : seq.reqid ≡ seq'.reqid = omega arith in
    ap₂ ◌∷◌ (sym same) (
      every_read s first seq'.reqid l read rest (rw (← same_number) c)
        (older-Given s first n seq.reqid a l read g c (omega arith) i))
every_read s first n (a ∷ l) (f ∷ read) (seq', e', es, en, rest) (seq, e, em, c) (inr other, i) =
    absurd (omega (arith, read_bound s first seq'.reqid n l f read rest (seq, e, em, c) other))

read_prefix :
    (s first n m : ℕ) (l read : List FrameSet)
    → Given s first n l
    → CountDown first m read
    → All (λ f. In f l) read
    → (later : List FrameSet) × (l ≡ later ++ read)
read_prefix s first n m [] [] g c i = ([], refl)
read_prefix s first n m [] (f ∷ read) g c i = elim i.0 [ ]
read_prefix s first n m (a ∷ l) read (seq, e, es, en, rest) c i = elim (dec_lt m n) [
  | yes h ↦
      let (later, q) =
        read_prefix s first seq.reqid m l read rest c
          (older-Given s first n m a l read (seq, e, es, en, rest) c h i) in
      (a ∷ later, ap (λ k. a ∷ k) q)
  | no h ↦ ([], last read c i h)
]
  where
    last :
        (read : List FrameSet)
        → CountDown first m read
        → All (λ f. In f (a ∷ l)) read
        → (m < n → ⊥)
        → a ∷ l ≡ read
    last [] c i h = absurd (h (omega (arith, Given-length s first seq.reqid l rest)))
    last (f ∷ read) c i h =
        let whole = read_bound s first n m (a ∷ l) f read (seq, e, es, en, rest) c i.0 in
        let same : m ≡ n = omega arith in
        every_read s first n (a ∷ l) (f ∷ read) (seq, e, es, en, rest) (rw (← same) c) i

-- Between an output queue numbered without gaps and an empty input queue of the same open session,
-- which expects the number to be given out next, the framesets read are at all times the first of those
-- that the sender accepted from then on, in that order and none left out, whatever the network loses,
-- repeats or reorders and whatever ACKs come back.
pub Channel-prefix :
    (out0 in0 : FsQueue) {accepted read : List FrameSet} {outq inq : FsQueue}
    → IsOutput out0
    → IsInput in0
    → in0.q ≡ []
    → 0 < out0.sessionid
    → in0.sessionid ≡ out0.sessionid
    → in0.nextseqno ≡ out0.nextseqno
    → Channel out0 in0 accepted read outq inq
    → (later : List FrameSet) × (accepted ≡ later ++ read)
Channel-prefix out0 in0 {accepted} {read} {outq} {inq} vo vi empty hs es en c =
    let before : Carried out0.sessionid out0.nextseqno [] [] out0 in0 = record {
      output = vo;
      out_session = refl;
      given = refl;
      input = vi;
      in_session = es;
      numbers = en;
      queued = rw empty tt;
      read_given = tt;
    } in
    let v = Channel-Carried out0.sessionid out0.nextseqno out0 in0 hs before c in
    read_prefix out0.sessionid out0.nextseqno outq.nextseqno inq.nextseqno accepted read v.given
      v.numbers v.read_given
