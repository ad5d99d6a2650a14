-- ===== src/Heartbeat.antt =====
-- clientlib/hblistener.c: the listeners for heartbeats, their times, and the check for nodes that
-- have died. The list's order is that of `_hb_listeners`; times are in microseconds, in 64 bits.
pub mod Unique
pub mod Listening
pub mod Deaths
pub mod Reports
pub mod Timers
pub mod Senders
pub mod Stopping
use assimilation_official.Common.{
  ℕ, ◌+◌, ◌-◌, ◌*◌, ◌/◌, ◌%◌, ◌^◌, Bool, true, false, not, ◌&&◌, Option, none, some, List, [], ◌∷◌,
  ◌++◌, ltb, ◌==◌, if◌then◌else◌, ℤ, is_positive, positive_part,
}
use assimilation_official.NetAddr.{NetAddr, equal}

-- `HbNodeStatus`
pub data Status : Type 0 where
  packets_being_received : Status
  packets_timed_out : Status

-- `struct _HbListener`, with its callbacks by number, `none` for NULL.
pub record HbListener : Type 0 where
  pub heartbeat_callback : Option ℕ
  pub deadtime_callback : Option ℕ
  pub warntime_callback : Option ℕ
  pub comealive_callback : Option ℕ
  pub expected_interval : ℕ
  pub warn_interval : ℕ
  pub nexttime : ℕ
  pub warntime : ℕ
  pub listenaddr : NetAddr
  pub status : Status

-- What is told of a node: to the callback, or in the log where there is none. Only the log is not
-- told of a heartbeat.
pub data Report : Type 0 where
  died : Option ℕ → NetAddr → Report
  came_alive : Option ℕ → NetAddr → ℕ → Report
  was_late : Option ℕ → NetAddr → ℕ → Report
  heartbeat : ℕ → NetAddr → Report
  martian : Option ℕ → NetAddr → Report

-- The static variables of the file, with the GLib sources that call `_hblistener_gsourcefunc`.
pub record HbListeners : Type 0 where
  pub listeners : List HbListener
  pub count : ℕ
  pub lastcheck : ℕ
  pub martiancallback : Option ℕ
  pub timeout_id : Option ℕ
  pub sources : List ℕ
  pub next_source : ℕ

-- Nothing is listened to at first.
abbrev pub no_listeners : Option ℕ → HbListeners
no_listeners callback = record {
  listeners = [];
  count = 0;
  lastcheck = 0;
  martiancallback = callback;
  timeout_id = none;
  sources = [];
  next_source = 1;
}

abbrev pub onesec : ℕ
onesec = 1000000

-- The unsigned arithmetic of guint64.
abbrev pub add64 : ℕ → ℕ → ℕ
add64 a b = (a + b) % 2 ^ 64

abbrev pub sub64 : ℕ → ℕ → ℕ
sub64 a b = (a + (2 ^ 64 - b % 2 ^ 64)) % 2 ^ 64

-- `hblistener_find_by_address`
unfoldable pub find_by_address : NetAddr → List HbListener → Option HbListener
find_by_address which [] = none
find_by_address which (listener ∷ rest) =
    if equal which listener.listenaddr then some listener else find_by_address which rest

-- `_hblistener_dellist` of the listener that was found by an address.
unfoldable pub remove_found : NetAddr → List HbListener → List HbListener
remove_found which [] = []
remove_found which (listener ∷ rest) =
    if equal which listener.listenaddr then rest else listener ∷ remove_found which rest

abbrev dellist : NetAddr → HbListeners → HbListeners
dellist which self = record self {
  listeners = remove_found which self.listeners;
  count = self.count - 1;
}

-- `hblistener_unlisten`
unfoldable pub unlisten : NetAddr → HbListeners → HbListeners
unlisten which self = elim (find_by_address which self.listeners) [
  | none ↦ self
  | some listener ↦ dellist which self
]

-- `_hblistener_addlist`: before the listener is prepended the timer is started, or an old listener
-- for the same address is taken off the list, as `hblistener_unlisten` does it.
unfoldable pub make_ready : NetAddr → HbListeners → HbListeners
make_ready listenaddr self = elim self.listeners [
  | [] ↦ record self {
    timeout_id = some self.next_source;
    sources = self.next_source ∷ self.sources;
    next_source = self.next_source + 1;
  }
  | first ∷ rest ↦ unlisten listenaddr self
]

unfoldable pub addlist : HbListener → HbListeners → HbListeners
addlist listener self =
    let ready : HbListeners = make_ready listener.listenaddr self in
    record ready { listeners = listener ∷ ready.listeners; count = ready.count + 1 }

-- `_hblistener_set_deadtime` and `_hblistener_set_warntime`, for a time in seconds.
unfoldable pub set_deadtime : ℕ → ℕ → HbListener → HbListener
set_deadtime now deadtime self =
    let interval : ℕ = deadtime * onesec % 2 ^ 64 in
    record self { expected_interval = interval; nexttime = add64 now interval }

unfoldable pub set_warntime : ℕ → ℕ → HbListener → HbListener
set_warntime now warntime self =
    let interval : ℕ = warntime * onesec % 2 ^ 64 in
    record self { warn_interval = interval; warntime = add64 now interval }

abbrev default_deadtime : ℕ
default_deadtime = 60

abbrev configured : ℤ → ℕ → ℕ
configured value default = if is_positive value then positive_part value else default

-- `hblistener_new`, for the two values of its configuration.
unfoldable pub hblistener_new : ℕ → NetAddr → ℤ → ℤ → HbListeners → HbListeners
hblistener_new now listenaddr timeout warntime self =
    let blank : HbListener = record {
      heartbeat_callback = none;
      deadtime_callback = none;
      warntime_callback = none;
      comealive_callback = none;
      expected_interval = 0;
      warn_interval = 0;
      nexttime = 0;
      warntime = 0;
      listenaddr = listenaddr;
      status = Status.packets_being_received;
    } in
    let timed : HbListener = set_deadtime now (configured timeout default_deadtime) blank in
    addlist (set_warntime now (configured warntime (default_deadtime * 2 / 3)) timed) self

abbrev pub is_received : Status → Bool
is_received Status.packets_being_received = true
is_received Status.packets_timed_out = false

-- The test of `_hblistener_checktimeouts`.
unfoldable pub is_overdue : ℕ → HbListener → Bool
is_overdue now listener = ltb listener.nexttime now && is_received listener.status

unfoldable pub check_one : ℕ → HbListener → HbListener
check_one now listener =
    if is_overdue now listener
    then record listener { status = Status.packets_timed_out }
    else listener

unfoldable pub check_all : ℕ → List HbListener → List HbListener × List Report
check_all now [] = ([], [])
check_all now (listener ∷ rest) =
    let others : List HbListener × List Report = check_all now rest in
    (
      check_one now listener ∷ others.0,
      if is_overdue now listener
          then Report.died listener.deadtime_callback listener.listenaddr ∷ others.1
          else others.1,
    )

-- `_hblistener_checktimeouts`
unfoldable pub checktimeouts : ℕ → Bool → HbListeners → HbListeners × List Report
checktimeouts now urgent self =
    let checked : List HbListener × List Report = check_all now self.listeners in
    if not urgent && ltb (sub64 now self.lastcheck) onesec
    then (self, [])
    else (record self { lastcheck = now; listeners = checked.0 }, checked.1)

-- What `_hblistener_got_frameset` does to the listener that it found, and whom it tells.
unfoldable pub beat : ℕ → HbListener → HbListener
beat now listener = record listener {
  status = Status.packets_being_received;
  nexttime = add64 now listener.expected_interval;
  warntime = add64 now listener.warn_interval;
}

unfoldable pub beat_reports : ℕ → HbListener → List Report
beat_reports now listener =
    let who : NetAddr = listener.listenaddr in
    (if not (is_received listener.status)
      then Report.came_alive listener.comealive_callback who (sub64 now listener.nexttime / 1000)
        ∷ []
      else if ltb listener.warntime now
      then Report.was_late listener.warntime_callback who (sub64 now listener.warntime / 1000) ∷ []
      else [])
    ++ (elim listener.heartbeat_callback [ none ↦ [] | some cb ↦ Report.heartbeat cb who ∷ [] ])

unfoldable pub beat_found : ℕ → NetAddr → List HbListener → List HbListener
beat_found now which [] = []
beat_found now which (listener ∷ rest) =
    if equal which listener.listenaddr
    then beat now listener ∷ rest
    else listener ∷ beat_found now which rest

-- `_hblistener_got_frameset`
unfoldable pub got_frameset : ℕ → NetAddr → HbListeners → HbListeners × List Report
got_frameset now srcaddr self = elim (find_by_address srcaddr self.listeners) [
  | none ↦ (self, Report.martian self.martiancallback srcaddr ∷ [])
  | some addmatch ↦
      (record self { listeners = beat_found now srcaddr self.listeners }, beat_reports now addmatch)
]

-- The setters of the callbacks.
unfoldable set_heartbeat_callback : Option ℕ → HbListener → HbListener
set_heartbeat_callback callback self = record self { heartbeat_callback = callback }

unfoldable set_deadtime_callback : Option ℕ → HbListener → HbListener
set_deadtime_callback callback self = record self { deadtime_callback = callback }

unfoldable set_warntime_callback : Option ℕ → HbListener → HbListener
set_warntime_callback callback self = record self { warntime_callback = callback }

unfoldable set_comealive_callback : Option ℕ → HbListener → HbListener
set_comealive_callback callback self = record self { comealive_callback = callback }

unfoldable set_martian_callback : Option ℕ → HbListeners → HbListeners
set_martian_callback callback self = record self { martiancallback = callback }
