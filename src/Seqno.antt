-- ===== src/Seqno.antt =====
-- clientlib/seqnoframe.c: the sequence number that a reliable frameset carries.
pub mod Order
use assimilation_official.Common.{
  ℕ, ◌/◌, ◌%◌, ◌^◌, Bool, true, false, ◌&&◌, ltb, ◌==◌, if◌then◌else◌,
}

-- The fields of `struct _SeqnoFrame`: a guint32, a guint64 and a guint16.
pub record Seqno : Type 0 where
  pub sessionid : ℕ
  pub reqid : ℕ
  pub qid : ℕ

-- What `_seqnoframe_compare` returns: -1, 0 or 1.
pub data Cmp : Type 0 where
  lt eq gt : Cmp

-- `_seqnoframe_compare`: the session first, then the request; the queue id is not looked at.
unfoldable pub compare : Seqno → Seqno → Cmp
compare self rhs =
    if self.sessionid == rhs.sessionid
    then (if ltb self.reqid rhs.reqid then lt else if ltb rhs.reqid self.reqid then gt else eq)
    else if ltb self.sessionid rhs.sessionid
    then lt
    else gt

abbrev is_eq : Cmp → Bool
is_eq eq = true
is_eq _ = false

-- `_seqnoframe_equal`
pub equal : Seqno → Seqno → Bool
equal self rhs = self.qid == rhs.qid && is_eq (compare self rhs)

abbrev fiveseconds : ℕ
fiveseconds = 5000000

-- `_seqnoframe_initsessionid`: the static session id from the real time in microseconds.
initsessionid : ℕ → ℕ
initsessionid now = now / fiveseconds % 2 ^ 32

-- The static `_sessionId` as `seqnoframe_new` leaves it: set up on first use.
unfoldable session_static : ℕ → ℕ → ℕ
unfolding initsessionid
session_static now static = if static == 0 then initsessionid now else static

-- `seqnoframe_new` and `seqnoframe_new_init`, given the static session id.
unfoldable pub new_init : ℕ → ℕ → ℕ → Seqno
new_init static reqid qid = record { sessionid = static; reqid = reqid; qid = qid }
