-- ===== src/Tests/Control.antt =====
-- The control state and the recording of control events.
use paper_forecast_loop.Prelude.{
  ◌≡◌, refl, ◌≢◌, ◌↔◌, ◌⊎◌, true, false, none, some, List, [], ◌∷◌, ◌++◌, All, arith,
}
use paper_forecast_loop.Runtime.Fixed.{Fixed, fixed_runtime}
use paper_forecast_loop.Models.Trading.{PaperControlEvent}
use paper_forecast_loop.Storage.{save_control_event}
use paper_forecast_loop.Control.{
  initial_state, control_step, current_control_state, paper_order_control_block_reason,
  record_control_event,
}
use paper_forecast_loop.Control.State.{
  IsConsistent, current_control_state-IsConsistent, current_control_state-append, resume_clears,
}
use paper_forecast_loop.Control.Guards.{
  IsPermitted, block_reason_exact, reduce_risk_reason_unreachable,
}
use paper_forecast_loop.Control.Events.{
  IsAdmissible, record_control_event-Effect, record_control_event-keeps_IsAdmissible,
}
use paper_forecast_loop.Tests.Fixtures.{decision, control, desk}

-- stored out of order: the sort puts the pause first
abbrev log : List (PaperControlEvent Fixed)
log = control 20 "REDUCE_RISK" none ∷ control 10 "EMERGENCY_STOP" (some "BTC-USD") ∷ []

stopped_by_log : (current_control_state log (some "BTC-USD")).paused ≡ true
unfolding current_control_state
stopped_by_log = refl

current_control_state-IsConsistent_example :
    IsConsistent (current_control_state log (some "BTC-USD"))
current_control_state-IsConsistent_example = current_control_state-IsConsistent log (some "BTC-USD")

current_control_state-append_example :
    current_control_state (log ++ control 20 "RESUME" none ∷ []) (some "BTC-USD")
    ≡ control_step
        (some "BTC-USD")
        (current_control_state log (some "BTC-USD"))
        (control 20 "RESUME" none)
current_control_state-append_example =
    current_control_state-append log (control 20 "RESUME" none) (some "BTC-USD") (omega arith)

resume_clears_example :
    let s = current_control_state (log ++ control 20 "RESUME" none ∷ []) (some "BTC-USD") in
    (s.emergency_stop ≡ false)
    × (s.paused ≡ false)
    × (s.reduce_risk ≡ false)
    × (s.stop_new_entries ≡ false)
    × (s.max_position_pct ≡ (current_control_state log (some "BTC-USD")).max_position_pct)
resume_clears_example =
    resume_clears log (control 20 "RESUME" none) (some "BTC-USD") (omega arith) refl refl

block_reason_exact_example :
    (paper_order_control_block_reason fixed_runtime initial_state (decision "decision:1" "BUY")
      ≡ none)
    ↔ IsPermitted fixed_runtime initial_state (decision "decision:1" "BUY")
block_reason_exact_example =
    block_reason_exact fixed_runtime initial_state (decision "decision:1" "BUY")

reduce_risk_reason_unreachable_example :
    paper_order_control_block_reason fixed_runtime
      (current_control_state log none)
      (decision "decision:1" "BUY")
    ≢ some "control_reduce_risk"
reduce_risk_reason_unreachable_example =
    reduce_risk_reason_unreachable fixed_runtime log none (decision "decision:1" "BUY")

record_control_event-keeps_IsAdmissible_example :
    All
      (IsAdmissible fixed_runtime)
      (record_control_event fixed_runtime
        (record desk { control_events = [] })
        "pause"
        30
        " halt "
        "operator"
        none
        false
        none).1.control_events
record_control_event-keeps_IsAdmissible_example =
    record_control_event-keeps_IsAdmissible fixed_runtime "pause" 30 " halt " "operator" none false
      none (record desk { control_events = [] }) tt

record_control_event-Effect_example :
    let (result, after) =
      record_control_event fixed_runtime desk "pause" 30 " halt " "operator" none false none in
    ((result.status ≡ "rejected") × (result.event ≡ none) × (after ≡ desk))
    ⊎ ((e : PaperControlEvent Fixed) × (result.status ≡ "recorded")
        × (result.event ≡ some e)
        × IsAdmissible fixed_runtime e
        × (after ≡ save_control_event e desk))
record_control_event-Effect_example =
    record_control_event-Effect fixed_runtime "pause" 30 " halt " "operator" none false none desk
