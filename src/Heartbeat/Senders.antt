-- ===== src/Heartbeat/Senders.antt =====
-- clientlib/hbsender.c: the senders of heartbeats. A serial number stands for the pointer to a sender;
-- what is sent is the list of the addresses, in order.
use assimilation_official.Common.{
  ℕ, zero, suc, ◌+◌, ◌-◌, Bool, true, false, Option, none, some, List, [], ◌∷◌, ◌==◌, if◌then◌else◌,
}
use assimilation_official.NetAddr.{NetAddr, equal}

-- `struct _HbSender`
pub record HbSender : Type 0 where
  pub serial : ℕ
  pub sendaddr : NetAddr
  pub expected_interval : ℕ
  pub refcount : ℕ

-- The static variables of the file.
pub record HbSenders : Type 0 where
  pub senders : List HbSender
  pub count : ℕ
  pub next_serial : ℕ

-- `_hbsender_ref`
unfoldable hbsender_ref : HbSender → HbSender
hbsender_ref self = record self { refcount = self.refcount + 1 }

-- `_hbsender_addlist` and `_hbsender_dellist`
unfoldable pub addlist : HbSender → HbSenders → HbSenders
addlist sender self = record self { senders = sender ∷ self.senders; count = self.count + 1 }

unfoldable pub remove_sender : ℕ → List HbSender → List HbSender
remove_sender serial [] = []
remove_sender serial (s ∷ rest) = if serial == s.serial then rest else s ∷ remove_sender serial rest

unfoldable pub has_sender : ℕ → List HbSender → Bool
has_sender serial [] = false
has_sender serial (s ∷ rest) = if serial == s.serial then true else has_sender serial rest

unfoldable pub dellist : ℕ → HbSenders → HbSenders
dellist serial self =
    if has_sender serial self.senders
    then record self { senders = remove_sender serial self.senders; count = self.count - 1 }
    else self

unfoldable pub set_refcount : ℕ → ℕ → List HbSender → List HbSender
set_refcount serial n [] = []
set_refcount serial n (s ∷ rest) =
    if serial == s.serial then record s { refcount = n } ∷ rest else s ∷ set_refcount serial n rest

-- `_hbsender_unref` of a sender; nothing is done to one without references.
unfoldable pub unref : HbSender → HbSenders → HbSenders
unref sender self =
    if sender.refcount == 0
    then self
    else if sender.refcount == 1
    then dellist sender.serial self
    else record self { senders = set_refcount sender.serial (sender.refcount - 1) self.senders }

-- `hbsender_new`, and the first heartbeat.
unfoldable pub hbsender_new : NetAddr → ℕ → HbSenders → HbSenders × List NetAddr
hbsender_new sendaddr interval self =
    let newsender : HbSender = record {
      serial = self.next_serial;
      sendaddr = sendaddr;
      expected_interval = interval;
      refcount = 1;
    } in
    (addlist newsender (record self { next_serial = self.next_serial + 1 }), sendaddr ∷ [])

unfoldable pub find_sender : NetAddr → List HbSender → Option HbSender
find_sender sendaddr [] = none
find_sender sendaddr (s ∷ rest) =
    if equal sendaddr s.sendaddr then some s else find_sender sendaddr rest

-- `hbsender_stopsend`, with one last heartbeat.
unfoldable pub stopsend : NetAddr → HbSenders → HbSenders × List NetAddr
stopsend sendaddr self = elim (find_sender sendaddr self.senders) [
  | none ↦ (self, [])
  | some sender ↦ (unref sender self, sender.sendaddr ∷ [])
]

-- The loop of `hbsender_stopallsenders`, for so many rounds; `none` when it has not ended by then.
unfoldable pub stopallsenders : ℕ → HbSenders → Option HbSenders
stopallsenders zero self = elim self.senders [ [] ↦ some self | s ∷ rest ↦ none ]
stopallsenders (suc rounds) self = elim self.senders [
  | [] ↦ some self
  | s ∷ rest ↦ stopallsenders rounds (unref s self)
]
