-- ===== src/FsProtocol/Fsa/Laws.antt =====
-- What the two matrices of clientlib/fsprotocol.c promise together.
use assimilation_official.Common.{true, false, ◌≡◌, ◌⊎◌, not, ◌&&◌, arith, ◌≢◌, ◌↔◌}
use assimilation_official.FsProtocol.Fsa.{
  State, fspr_none, fspr_init, Input, gotconn_nak, rcvshutdown, reqshutdown, acktimeout, shut_to,
  nextstates, actions, in_shutdown,
}

-- A CONNSHUT is sent, and the shutdown timer started, exactly on entering shutdown.
pub sndshut_lem :
    (s : State) (i : Input)
    → ((actions s i).sndshut ≡ (not (in_shutdown s) && in_shutdown (nextstates s i)))
      × ((actions s i).timer ≡ (actions s i).sndshut)
unfolding actions nextstates
sndshut_lem s i = ground arith

-- A connection that is shutting down goes on doing so or ends.
pub shutdown_ends :
    (s : State) (i : Input)
    → in_shutdown s ≡ true
    → (in_shutdown (nextstates s i) ≡ true) ⊎ (nextstates s i ≡ fspr_none)
unfolding nextstates
shutdown_ends s i h = ground arith

-- In every shutdown state an ACK timeout and the shutdown timer end the connection and clean it up.
pub timeout_ends :
    (s : State)
    → in_shutdown s ≡ true
    → (nextstates s acktimeout ≡ fspr_none)
      × (nextstates s shut_to ≡ fspr_none)
      × ((actions s acktimeout).close ≡ true)
      × ((actions s shut_to).close ≡ true)
unfolding nextstates actions
timeout_ends s h = ground arith

-- A connection that is in use is cleaned up exactly on its way to NONE, with two exceptions: one that
-- is turned down during shutdown is not, and one that is turned down while it starts is cleaned up
-- though it stays as it is.
pub close_lem :
    (s : State) (i : Input)
    → s ≢ fspr_none
    → ((actions s i).close ≡ true) ↔ (
        ((nextstates s i ≡ fspr_none) × ((in_shutdown s ≡ false) ⊎ (i ≢ gotconn_nak)))
        ⊎ ((s ≡ fspr_init) × (i ≡ gotconn_nak)))
unfolding nextstates actions
close_lem s i h = ground arith

-- A CONNSHUT that was read is acknowledged by the automaton in every state but NONE, and nothing
-- else is.
pub ackme_iff :
    (s : State) (i : Input) → ((actions s i).ackme ≡ true) ↔ ((i ≡ rcvshutdown) × (s ≢ fspr_none))
unfolding actions
ackme_iff s i = ground arith

-- A request to shut down brings every connection into shutdown, or leaves it unused.
pub reqshutdown_ends :
    (s : State)
    → (in_shutdown (nextstates s reqshutdown) ≡ true) ⊎ (nextstates s reqshutdown ≡ fspr_none)
unfolding nextstates
reqshutdown_ends s = ground arith
