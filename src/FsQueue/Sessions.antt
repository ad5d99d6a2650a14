-- ===== src/FsQueue/Sessions.antt =====
-- What `_fsqueue_inqsorted` (clientlib/fsqueue.c) decides for a sequenced frameset, by its session.
use assimilation_official.Common.{◌≤◌, ◌<◌, ◌≡◌, ◌⊎◌, true, false, none, some, List, [], ◌∷◌, arith}
use assimilation_official.Seqno.{Seqno}
use assimilation_official.FsQueue.{
  FsQueue, insert_sorted, inqsorted, inq_sequenced, check_session, flush, hasqspace1,
}
use assimilation_official.FsQueue.Frames.{FrameSet, getseqno}
use assimilation_official.FsQueue.Input.{IsInput, Inserted, insert_sorted-Inserted}

module _ (self : FsQueue) (seqno : Seqno) (fs : FrameSet)
    (sequenced : getseqno fs ≡ some seqno) where
  -- A frameset of the queue's session, not read before, with room in the queue: it is inserted under
  -- its number, unless there is one already, and nothing else of the queue changes.
  pub inqsorted_current :
      IsInput self
      → 0 < self.sessionid
      → seqno.sessionid ≡ self.sessionid
      → self.nextseqno ≤ seqno.reqid
      → hasqspace1 self ≡ true
      → (q' : List FrameSet) × (inqsorted self fs ≡ some (true, record self { q = q' }))
        × Inserted self.sessionid self.nextseqno seqno fs self.q q'
  unfolding inqsorted check_session inq_sequenced hasqspace1
  inqsorted_current v h0 hs hr room =
      let (q', eq', w) =
        insert_sorted-Inserted self.sessionid self.nextseqno seqno fs self.q v.ordered sequenced hs
          hr in
      (q', ground (arith, eq'), w)

  -- In an open session a frameset of an earlier session, and one whose number was read before, are
  -- refused, and the queue stays as it was.
  pub inqsorted_old :
      0 < self.sessionid
      → (seqno.sessionid < self.sessionid)
        ⊎ ((seqno.sessionid ≡ self.sessionid) × (seqno.reqid < self.nextseqno))
      → inqsorted self fs ≡ some (false, self)
  unfolding inqsorted check_session
  inqsorted_old h0 h = ground arith

  -- A frameset of a later session than the open one, with a number of 1 or more, resets the queue:
  -- what was in it is dropped, and the frameset is all that it holds afterwards, with number 1
  -- expected next.
  pub inqsorted_reset :
      0 < self.sessionid
      → self.sessionid < seqno.sessionid
      → 1 ≤ seqno.reqid
      → inqsorted self fs
        ≡ some (true, record self { sessionid = seqno.sessionid; nextseqno = 1; q = fs ∷ [] })
  unfolding inqsorted check_session inq_sequenced flush insert_sorted
  inqsorted_reset h0 h hr = ground arith

  -- With an unsequenced frameset at the head of the queue, a sequenced one that is due for insertion
  -- makes the loop compare with a null sequence number.
  pub inqsorted_null :
      (head : FrameSet) (rest : List FrameSet)
      → self.q ≡ head ∷ rest
      → getseqno head ≡ none
      → 0 < self.sessionid
      → seqno.sessionid ≡ self.sessionid
      → self.nextseqno ≤ seqno.reqid
      → hasqspace1 self ≡ true
      → inqsorted self fs ≡ none
  unfolding inqsorted check_session inq_sequenced insert_sorted hasqspace1
  inqsorted_null head rest eq eh h0 hs hr room = ground arith
