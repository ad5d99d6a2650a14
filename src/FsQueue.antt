-- ===== src/FsQueue.antt =====
-- clientlib/fsqueue.c with the parts of clientlib/frameset.c that it calls: a queue of framesets,
-- as the output side (`enq`, `ackthrough`) and the input side (`inqsorted`, `deq`) use it.
-- A GQueue is the list of its elements, head first. The reference counts are not modelled.
pub mod Frames
pub mod Output
pub mod Acks
pub mod Input
pub mod Sessions
pub mod Keeps
use assimilation_official.Common.{
  ℕ, ◌+◌, ◌%◌, ◌^◌, Bool, true, false, not, ◌&&◌, ◌||◌, Option, none, some, List, [], ◌∷◌, ◌++◌,
  length, ltb, leb, ◌==◌, if◌then◌else◌,
}
use assimilation_official.Seqno.{Seqno, Cmp, compare, new_init}
use Frames.{Frame, FrameSet, getseqno, prepend_frame, is_some}

-- The data members of `struct _FsQueue`; the far address is kept by the connection.
pub record FsQueue : Type 0 where
  pub nextseqno : ℕ
  pub sessionid : ℕ
  pub maxqlen : ℕ
  pub q : List FrameSet
  pub qid : ℕ
  pub isready : Bool

abbrev default_fsqmax : ℕ
default_fsqmax = 32

-- `fsqueue_new`: the object is zeroed before its fields are set.
unfoldable pub new : ℕ → FsQueue
new qid = record {
  nextseqno = 1;
  sessionid = 0;
  maxqlen = default_fsqmax;
  q = [];
  qid = qid;
  isready = false;
}

-- `self->_maxqlen != 0 && self->_q->length >= self->_maxqlen`
abbrev pub is_full : FsQueue → Bool
is_full self = not (self.maxqlen == 0) && leb self.maxqlen (length self.q)

-- `_fsqueue_hasqspace1`
unfoldable pub hasqspace1 : FsQueue → Bool
hasqspace1 self = self.maxqlen == 0 || ltb (length self.q) self.maxqlen

-- `_fsqueue_hasqspace`, with the sum of two guints as the code writes it.
pub hasqspace : FsQueue → ℕ → Bool
hasqspace self desired =
    self.maxqlen == 0 || leb (length self.q) ((self.maxqlen + desired) % 2 ^ 32)

-- `_fsqueue_enq`, given the static session id of seqnoframe.c. The frameset in the queue is `fs`
-- with the new sequence number in front.
unfoldable pub enq : ℕ → FsQueue → FrameSet → Bool × FsQueue
enq static self fs =
    let fresh : Seqno = new_init static self.nextseqno self.qid in
    let session : ℕ = if self.sessionid == 0 then fresh.sessionid else self.sessionid in
    let seqno : Seqno = record fresh { sessionid = session } in
    if is_some fs.seqframe || is_full self then (false, self) else (
      true,
      record self {
        nextseqno = (self.nextseqno + 1) % 2 ^ 64;
        sessionid = session;
        q = self.q ++ (prepend_frame fs (Frame.seqno seqno) ∷ []);
      },
    )

-- `_fsqueue_qhead`
unfoldable pub qhead : FsQueue → Option FrameSet
qhead self = elim self.q [ [] ↦ none | fs ∷ rest ↦ some fs ]

-- `g_queue_pop_head`, for the queue that it leaves.
abbrev pub tail : List FrameSet → List FrameSet
tail [] = []
tail (fs ∷ rest) = rest

-- `_fsqueue_deq`
unfoldable pub deq : FsQueue → Option FrameSet × FsQueue
unfolding qhead
deq self = (qhead self, record self { q = tail self.q })

-- `_fsqueue_flush1`
unfoldable pub flush1 : FsQueue → FsQueue
flush1 self = record self { q = tail self.q }

-- `_fsqueue_flush`
unfoldable pub flush : FsQueue → FsQueue
flush self = record self { q = [] }

-- The loop of `_fsqueue_ackthrough`: the queue left and the number of framesets flushed.
pub ack_loop : ℕ → List FrameSet → ℕ × List FrameSet
ack_loop reqid [] = (0, [])
ack_loop reqid (fs ∷ rest) =
    let more = ack_loop reqid rest in
    elim (getseqno fs) [
      | none ↦ (more.0 + 1, more.1)
      | some fseq ↦ if ltb reqid fseq.reqid then (0, fs ∷ rest) else (more.0 + 1, more.1)
    ]

-- `_fsqueue_ackthrough`: `none` is its -1, for an ACK that is not one of this queue's.
pub ackthrough : FsQueue → Seqno → Option ℕ × FsQueue
unfolding ack_loop
ackthrough self seq =
    if not (seq.sessionid == self.sessionid) || leb self.nextseqno seq.reqid
    then (none, self)
    else (let r = ack_loop seq.reqid self.q in (some r.0, record self { q = r.1 }))

-- The part of `_fsqueue_inqsorted` that looks at the session: `none` is a session that is over.
unfoldable pub check_session : FsQueue → Seqno → Option FsQueue
unfolding flush
check_session self seqno =
    if self.sessionid == 0
    then some (record self {
      sessionid = seqno.sessionid;
      nextseqno = if leb 2 seqno.reqid then seqno.reqid else self.nextseqno;
    })
    else if ltb seqno.sessionid self.sessionid
    then none
    else if ltb self.sessionid seqno.sessionid
    then some (record (flush self) { sessionid = seqno.sessionid; nextseqno = 1 })
    else some self

-- The insertion loop of `_fsqueue_inqsorted`. It compares with `thisseq` unchecked: `none` is the
-- read through a null pointer where an element has no sequence number.
unfoldable pub insert_sorted : Seqno → FrameSet → List FrameSet → Option (List FrameSet)
insert_sorted seqno fs [] = some (fs ∷ [])
insert_sorted seqno fs (this ∷ rest) =
    let more = insert_sorted seqno fs rest in
    elim (getseqno this) [
      | none ↦ none
      | some thisseq ↦ elim (compare seqno thisseq) [
        | Cmp.lt ↦ some (fs ∷ this ∷ rest)
        | Cmp.eq ↦ some (this ∷ rest)
        | Cmp.gt ↦ elim more [ none ↦ none | some rest' ↦ some (this ∷ rest') ]
      ]
    ]

-- `_fsqueue_inqsorted` from the length check on, for a sequenced frameset.
unfoldable pub inq_sequenced : FsQueue → Seqno → FrameSet → Option (Bool × FsQueue)
unfolding insert_sorted
inq_sequenced self seqno fs =
    if is_full self then some (false, self) else elim (insert_sorted seqno fs self.q) [
      | none ↦ none
      | some q' ↦ some (true, record self { q = q' })
    ]

-- `_fsqueue_setmaxqlen`, `_fsqueue_getmaxqlen` and `_fsqueue_qlen`
abbrev setmaxqlen : FsQueue → ℕ → FsQueue
setmaxqlen self max = record self { maxqlen = max }

abbrev getmaxqlen : FsQueue → ℕ
getmaxqlen self = self.maxqlen

abbrev qlen : FsQueue → ℕ
qlen self = length self.q

-- `_fsqueue_inqsorted`: whether it went in (a duplicate counts as in), and the queue left.
unfoldable pub inqsorted : FsQueue → FrameSet → Option (Bool × FsQueue)
unfolding check_session inq_sequenced
inqsorted self fs = elim (getseqno fs) [
  | none ↦ if is_full self then some (false, self) else some (true, record self { q = fs ∷ self.q })
  | some seqno ↦ elim (check_session self seqno) [
    | none ↦ some (false, self)
    | some self' ↦
        if ltb seqno.reqid self'.nextseqno
        then some (false, self')
        else inq_sequenced self' seqno fs
  ]
]
