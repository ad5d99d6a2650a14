-- ===== src/Tests/Heartbeats.antt =====
-- clientlib/hblistener.c, clientlib/hbsender.c and clientlib/authlistener.c on a few nodes.
use assimilation_official.Common.{
  ◌+◌, ◌≡◌, refl, Bool, true, not, none, some, List, [], ◌∷◌, ℤ, ltb, arith,
}
use assimilation_official.NetAddr.{NetAddr, ipv4, equal, same}
use assimilation_official.NetAddr.Canonical.{IsWellFormed}
use assimilation_official.FsQueue.Frames.{FrameSet}
use assimilation_official.Heartbeat.{
  HbListener, HbListeners, Status, no_listeners, hblistener_new, set_deadtime, set_warntime,
  addlist, make_ready, find_by_address, is_received, checktimeouts, got_frameset,
}
use assimilation_official.Heartbeat.Listening.{Listening, IsListening, Listening-IsListening}
use assimilation_official.Heartbeat.Deaths.{follow}
use assimilation_official.Heartbeat.Reports.{Happening, run, run_alternates, deadline_lem}
use assimilation_official.Heartbeat.Senders.{HbSenders, stopallsenders}
use assimilation_official.Heartbeat.Stopping.{stopallsenders_total}
use assimilation_official.AuthListener
use assimilation_official.AuthListener.{MapEntry, Obeyed, authlistener_new, authenticated}
use assimilation_official.AuthListener.Obeying.{got_frameset-authlistener_new}

abbrev node : NetAddr
node = record { addrtype = ipv4; addrport = 1984; addrbody = 10 ∷ 10 ∷ 10 ∷ 5 ∷ [] }

node-IsWellFormed : IsWellFormed node
node-IsWellFormed = omega arith

abbrev idle : HbListeners
idle = no_listeners none

abbrev listening : HbListeners
listening = hblistener_new 1000 node (ℤ.pos 3) (ℤ.pos 1) idle

abbrev listener : HbListener
listener = record {
  heartbeat_callback = none;
  deadtime_callback = none;
  warntime_callback = none;
  comealive_callback = none;
  expected_interval = 3000000;
  warn_interval = 1000000;
  nexttime = 3001000;
  warntime = 1001000;
  listenaddr = node;
  status = Status.packets_being_received;
}

listening-Listening : Listening listening
listening-Listening =
    Listening.listened (Listening.started none) 1000 node (ℤ.pos 3) (ℤ.pos 1) node-IsWellFormed

finds_node : find_by_address node listening.listeners ≡ some listener
unfolding hblistener_new set_deadtime set_warntime addlist make_ready find_by_address equal same
finds_node = refl

-- A node that is silent for longer than its interval, and then is heard from.
abbrev silence : List Happening
silence = Happening.checks 3001001 true ∷ Happening.beats 4000000 node ∷ []

Listening-IsListening_example : IsListening listening
Listening-IsListening_example = Listening-IsListening listening listening-Listening

run_alternates_example :
    (after : HbListener) × (find_by_address node (run silence listening).0.listeners ≡ some after)
    × (follow node true (run silence listening).1 ≡ some (is_received after.status))
run_alternates_example =
    run_alternates node silence listening listener node-IsWellFormed listening-Listening finds_node

deadline_lem_example :
    follow node true (checktimeouts 5000001 true (got_frameset 2000000 node listening).0).1
    ≡ some (not (ltb (2000000 + 3000000) 5000001))
deadline_lem_example =
    deadline_lem node 2000000 5000001 listening listener node-IsWellFormed listening-Listening
      finds_node (omega arith)

abbrev two_senders : HbSenders
two_senders = record {
  senders =
      record { serial = 1; sendaddr = node; expected_interval = 1; refcount = 2 }
      ∷ record { serial = 0; sendaddr = node; expected_interval = 1; refcount = 1 }
      ∷ [];
  count = 2;
  next_serial = 2;
}

stopallsenders_total_example :
    (after : HbSenders) × (stopallsenders 3 two_senders ≡ some after) × (after.senders ≡ [])
stopallsenders_total_example =
    stopallsenders_total two_senders 3 (omega arith, (omega arith, tt)) (omega arith)

abbrev orders : List MapEntry
orders =
    record { framesettype = 25; action = some 1 }
    ∷ record { framesettype = 26; action = some 2 }
    ∷ record { framesettype = 0; action = none }
    ∷ []

abbrev accepts : FrameSet → NetAddr → Bool
accepts fs addr = true

abbrev order : FrameSet
order = record { fstype = 26; framelist = []; seqframe = none }

abbrev obeying : AuthListener.AuthListener
obeying = authlistener_new orders true (some accepts)

got_frameset-authlistener_new_example :
    (AuthListener.got_frameset (AuthListener.associate obeying 4).0 order node
      ≡ some (record { action = some 2; acking = some 4 }))
    × (AuthListener.got_frameset obeying order node ≡ none)
got_frameset-authlistener_new_example =
    got_frameset-authlistener_new orders true (some accepts) 4 order node
