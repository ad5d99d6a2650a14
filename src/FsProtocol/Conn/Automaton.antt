-- ===== src/FsProtocol/Conn/Automaton.antt =====
-- `_fsprotocol_fsa` of clientlib/fsprotocol.c: where it sends, and the state that it leaves.
use assimilation_official.Common.{false, ◌≡◌, ◌⊎◌, arith, Option, ap, ◌∙◌, sym}
use assimilation_official.FsQueue.Frames.{FrameSet}
use assimilation_official.FsProtocol.Fsa.{State, Input, reqsend, acktimeout, Actions, actions}
use assimilation_official.FsProtocol.Types.{Conn}
use assimilation_official.FsProtocol.Conn.{
  fsa_talk, fsa_finish, fsa_with, sndnak_action, sndshut_action, ackme_action,
}

-- The actions of an input never send, whatever the state.
abbrev IsQuiet : Input → Type 0
IsQuiet i = (s : State) → ((actions s i).sndnak ≡ false) × ((actions s i).sndshut ≡ false)

quiet : (i : Input) → (i ≡ reqsend) ⊎ (i ≡ acktimeout) → IsQuiet i
unfolding actions
quiet i h s = ground arith

fsa_talk_quiet :
    (send : FrameSet → Conn → Conn) (fs : Option FrameSet) (act : Actions) (c : Conn)
    → act.sndnak ≡ false
    → act.sndshut ≡ false
    → fsa_talk send fs (act, c) ≡ ackme_action fs (act, c)
unfolding fsa_talk sndnak_action sndshut_action ackme_action
fsa_talk_quiet send fs act c n q = ground arith

-- For REQSEND and ACKTIMEOUT the automaton does the same whatever sending does.
pub fsa_with_quiet :
    (send send' : FrameSet → Conn → Conn) (i : Input) (fs : Option FrameSet) (c : Conn)
    → (i ≡ reqsend) ⊎ (i ≡ acktimeout)
    → fsa_with send i fs c ≡ fsa_with send' i fs c
unfolding fsa_with
fsa_with_quiet send send' i fs c h =
    let (n, q) = quiet i h c.fspe.state in
    ap (fsa_finish c.fspe.state i)
      (fsa_talk_quiet send fs _ c n q ∙ sym (fsa_talk_quiet send' fs _ c n q))
