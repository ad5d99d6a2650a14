-- ===== src/Heartbeat/Timers.antt =====
-- clientlib/hblistener.c: the timer of the check, and the end of all listening.
use assimilation_official.Common.{ℕ, true, none, some, List, [], ◌∷◌, ◌==◌, if◌then◌else◌}
use assimilation_official.Heartbeat.{HbListeners, Report, checktimeouts}

-- `g_source_remove`
unfoldable pub source_remove : ℕ → List ℕ → List ℕ
source_remove id [] = []
source_remove id (s ∷ rest) = if id == s then rest else s ∷ source_remove id rest

-- `hblistener_shutdown`; `_hblistener_notify_function`, which it sets off, finds it already under way.
unfoldable pub shutdown : HbListeners → HbListeners
shutdown self = record self {
  listeners = [];
  sources = elim self.timeout_id [ none ↦ self.sources | some id ↦ source_remove id self.sources ];
}

-- `_hblistener_gsourcefunc` of the source with an id. A source that is told not to go on is removed,
-- and `_hblistener_notify_function` shuts down.
unfoldable pub gsourcefunc : ℕ → ℕ → HbListeners → HbListeners × List Report
gsourcefunc now id self =
    let checked : HbListeners × List Report = checktimeouts now true self in
    (
      elim checked.0.listeners [
        | first ∷ rest ↦ checked.0
        | [] ↦
            shutdown
              (record checked.0 { timeout_id = none; sources = source_remove id checked.0.sources })
      ],
      checked.1,
    )
