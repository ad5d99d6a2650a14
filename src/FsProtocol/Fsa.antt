-- ===== src/FsProtocol/Fsa.antt =====
-- The two matrices of clientlib/fsprotocol.c and the states of include/fsprotocol.h.
pub mod Laws
use assimilation_official.Common.{ℕ, Bool, true, false, ◌≡◌, refl, List, [], ◌∷◌}

-- `enum _FsProtoState`
pub data State : Type 0 where
  fspr_none fspr_init fspr_up fspr_shut1 fspr_shut2 fspr_shut3 : State

-- `enum _FsProtoInput`
pub data Input : Type 0 where
  gotstart reqsend gotconn_nak reqshutdown rcvshutdown acktimeout outalldone shut_to : Input

-- The bits of an action word, `A_CLOSE` to `A_NOSHUT`.
pub record Actions : Type 0 where
  pub close : Bool
  pub oops : Bool
  pub debug : Bool
  pub sndnak : Bool
  pub sndshut : Bool
  pub ackto : Bool
  pub ackme : Bool
  pub timer : Bool
  pub notime : Bool
  pub noshut : Bool

abbrev pub no_action : Actions
no_action = record {
  close = false;
  oops = false;
  debug = false;
  sndnak = false;
  sndshut = false;
  ackto = false;
  ackme = false;
  timer = false;
  notime = false;
  noshut = false;
}

abbrev a_close : Actions
a_close = record no_action { close = true }

abbrev a_oops : Actions
a_oops = record no_action { oops = true }

abbrev a_debug : Actions
a_debug = record no_action { debug = true }

abbrev a_ackto : Actions
a_ackto = record no_action { ackto = true }

abbrev a_ackme : Actions
a_ackme = record no_action { ackme = true }

abbrev ackto_oops : Actions
ackto_oops = record a_ackto { oops = true }

abbrev shut_n_timer : Actions
shut_n_timer = record no_action { sndshut = true; timer = true }

abbrev ack_n_shut : Actions
ack_n_shut = record shut_n_timer { ackme = true }

abbrev close_n_notime : Actions
close_n_notime = record a_close { notime = true }

abbrev ack_n_close_n_notime : Actions
ack_n_close_n_notime = record close_n_notime { ackme = true }

-- One row of a matrix, indexed by the input.
abbrev row {ℓ} : {A : Type ℓ} → A → A → A → A → A → A → A → A → Input → A
row a b c d e f g h gotstart = a
row a b c d e f g h reqsend = b
row a b c d e f g h gotconn_nak = c
row a b c d e f g h reqshutdown = d
row a b c d e f g h rcvshutdown = e
row a b c d e f g h acktimeout = f
row a b c d e f g h outalldone = g
row a b c d e f g h shut_to = h

-- `nextstates`
pub nextstates : State → Input → State
nextstates fspr_none =
    row fspr_up fspr_init fspr_none fspr_none fspr_shut2 fspr_none fspr_none fspr_none
nextstates fspr_init =
    row fspr_init fspr_init fspr_init fspr_shut1 fspr_shut2 fspr_none fspr_up fspr_init
nextstates fspr_up = row fspr_up fspr_up fspr_none fspr_shut1 fspr_shut2 fspr_up fspr_up fspr_up
nextstates fspr_shut1 =
    row fspr_shut1 fspr_shut1 fspr_none fspr_shut1 fspr_shut2 fspr_none fspr_shut3 fspr_none
nextstates fspr_shut2 =
    row fspr_shut2 fspr_shut2 fspr_none fspr_shut2 fspr_shut2 fspr_none fspr_none fspr_none
nextstates fspr_shut3 =
    row fspr_shut3 fspr_shut3 fspr_none fspr_shut3 fspr_none fspr_none fspr_shut3 fspr_none

-- `actions`
unfoldable pub actions : State → Input → Actions
actions fspr_none = row no_action no_action a_close a_close shut_n_timer ackto_oops a_oops a_oops
actions fspr_init = row no_action no_action a_close shut_n_timer ack_n_shut a_close no_action a_oops
actions fspr_up = row no_action no_action a_close shut_n_timer ack_n_shut a_ackto no_action a_oops
actions fspr_shut1 = row no_action a_debug a_oops no_action a_ackme close_n_notime no_action a_close
actions fspr_shut2 =
    row no_action a_debug no_action no_action a_ackme close_n_notime close_n_notime a_close
actions fspr_shut3 =
    row no_action a_debug a_oops no_action ack_n_close_n_notime close_n_notime no_action a_close

-- `FSPR_INSHUTDOWN`
abbrev pub in_shutdown : State → Bool
in_shutdown fspr_none = false
in_shutdown fspr_init = false
in_shutdown fspr_up = false
in_shutdown _ = true
