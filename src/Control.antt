-- ===== src/Control.antt =====
-- control.py: the operator's control events, the control state that they add up to, and the reason
-- for which that state holds an order back. A method that writes returns its result and the new
-- repository.
pub mod State
pub mod Events
pub mod Guards
use paper_forecast_loop.Prelude.{
  ℕ, String, Bool, true, false, not, ◌&&◌, ◌||◌, Option, none, some, List, [], ◌∷◌, ◌==◌,
  if◌then◌else◌, sorted_by, Result, ok, err,
}
use paper_forecast_loop.Prelude.Text.{upper, strip, contains}
use paper_forecast_loop.Runtime.{Runtime, zero_point}
use paper_forecast_loop.Models.Trading.{StrategyDecision, PaperControlEvent}
use paper_forecast_loop.Models.Trading.Ids.{build_control_id}
use paper_forecast_loop.Storage.{ArtifactRepository, save_control_event}

pub data PaperControlAction : Type 0 where
  pause resume stop_new_entries reduce_risk emergency_stop set_max_position : PaperControlAction

abbrev pub control_value : PaperControlAction → String
control_value pause = "PAUSE"
control_value resume = "RESUME"
control_value stop_new_entries = "STOP_NEW_ENTRIES"
control_value reduce_risk = "REDUCE_RISK"
control_value emergency_stop = "EMERGENCY_STOP"
control_value set_max_position = "SET_MAX_POSITION"

-- `{item.value for item in PaperControlAction}`
abbrev pub control_actions : List String
control_actions =
    control_value pause
    ∷ control_value resume
    ∷ control_value stop_new_entries
    ∷ control_value reduce_risk
    ∷ control_value emergency_stop
    ∷ control_value set_max_position
    ∷ []

abbrev pub confirmation_required_actions : List String
confirmation_required_actions =
    control_value resume ∷ control_value emergency_stop ∷ control_value set_max_position ∷ []

pub record PaperControlState (F : Type 0) : Type 0 where
  pub paused : Bool
  pub stop_new_entries : Bool
  pub reduce_risk : Bool
  pub emergency_stop : Bool
  pub max_position_pct : Option F
  pub latest_control_id : Option String

abbrev pub initial_state : {F : Type 0} → PaperControlState F
initial_state = record {
  paused = false;
  stop_new_entries = false;
  reduce_risk = false;
  emergency_stop = false;
  max_position_pct = none;
  latest_control_id = none;
}

-- `PaperControlState.status`
pub control_status : {F : Type 0} → PaperControlState F → String
control_status s =
    if s.emergency_stop
    then "EMERGENCY_STOP"
    else if s.paused
    then "PAUSED"
    else if s.reduce_risk
    then "REDUCE_RISK"
    else if s.stop_new_entries
    then "STOP_NEW_ENTRIES"
    else "ACTIVE"

-- `event.symbol in (None, symbol)`
abbrev pub in_scope : Option String → Option String → Bool
in_scope none symbol = true
in_scope (some s) none = false
in_scope (some s) (some t) = s == t

module _ {F : Type 0} where
  -- the body of the loop, for an event that is not skipped
  unfoldable pub apply_event : PaperControlState F → PaperControlEvent F → PaperControlState F
  apply_event state event =
      let s = record state { latest_control_id = some event.control_id } in
      if event.action == control_value PaperControlAction.pause
      then record s { paused = true }
      else if event.action == control_value PaperControlAction.resume
      then record s {
        paused = false;
        stop_new_entries = false;
        reduce_risk = false;
        emergency_stop = false;
      }
      else if event.action == control_value PaperControlAction.stop_new_entries
      then record s { stop_new_entries = true }
      else if event.action == control_value PaperControlAction.reduce_risk
      then record s { reduce_risk = true; stop_new_entries = true }
      else if event.action == control_value PaperControlAction.emergency_stop
      then record s {
        emergency_stop = true;
        paused = true;
        stop_new_entries = true;
        reduce_risk = true;
      }
      else if event.action == control_value PaperControlAction.set_max_position
      then record s { max_position_pct = event.parameter_value }
      else s

  -- the loop's body, with its `continue`
  unfoldable pub control_step :
      Option String → PaperControlState F → PaperControlEvent F → PaperControlState F
  control_step symbol state event =
      if in_scope event.symbol symbol then apply_event state event else state

  unfoldable pub apply_events :
      Option String → PaperControlState F → List (PaperControlEvent F) → PaperControlState F
  apply_events symbol state [] = state
  apply_events symbol state (event ∷ events) =
      apply_events symbol (control_step symbol state event) events

  unfoldable pub current_control_state :
      List (PaperControlEvent F) → Option String → PaperControlState F
  unfolding apply_event control_step apply_events
  current_control_state events symbol =
      apply_events symbol initial_state (sorted_by (λ e. e.created_at) events)

pub record PaperControlResult (F : Type 0) : Type 0 where
  pub status : String
  pub reason : Option String
  pub event : Option (PaperControlEvent F)

module _ {F : Type 0} (rt : Runtime F) where
  -- the test of `max_position_pct > limit` where neither is None
  abbrev pub exceeds : Option F → Option F → Bool
  exceeds (some limit) (some x) = rt.lt limit x
  exceeds _ _ = false

  unfoldable pub paper_order_control_block_reason :
      PaperControlState F → StrategyDecision F → Option String
  paper_order_control_block_reason state decision =
      let buys = decision.action == "BUY" in
      if state.emergency_stop
      then some "control_emergency_stop"
      else if state.paused
      then some "control_paused"
      else if buys && state.stop_new_entries
      then some "control_stop_new_entries"
      else if buys && state.reduce_risk
      then some "control_reduce_risk"
      else if buys && exceeds state.max_position_pct decision.recommended_position_pct
      then some "control_max_position_exceeded"
      else none

  -- the parameter of a control: a maximal position within 0 and 1, or none
  unfoldable pub control_parameter : String → Option F → Result (Option String × Option F)
  control_parameter action max_position_pct =
      if action == control_value PaperControlAction.set_max_position
      then elim max_position_pct [
        | none ↦ err "max_position_pct_required"
        | some m ↦
            if rt.lt m (zero_point rt) || rt.lt (rt.dec 1 0) m
            then err "max_position_pct_out_of_range"
            else ok (some "max_position_pct", some m)
      ]
      else ok (none, none)

  abbrev pub rejected : String → PaperControlResult F
  rejected why = record { status = "rejected"; reason = some why; event = none }

  unfoldable pub control_event :
      String
      → ℕ
      → String
      → String
      → Option String
      → Bool
      → Option String × Option F
      → PaperControlEvent F
  control_event action now reason actor symbol confirmed (name, value) = record {
    control_id = build_control_id rt now action actor (strip reason) symbol name value;
    created_at = now;
    action = action;
    actor = actor;
    reason = strip reason;
    status = "ACTIVE";
    symbol = symbol;
    requires_confirmation = contains confirmation_required_actions action;
    confirmed = confirmed;
    parameter_name = name;
    parameter_value = value;
    decision_basis = "paper-only audited operator control";
  }

  -- the checks, in their order; the event that is to be stored, or why it is rejected
  unfoldable pub checked_control_event :
      String → ℕ → String → String → Option String → Bool → Option F → Result (PaperControlEvent F)
  checked_control_event action now reason actor symbol confirmed max_position_pct =
      let normalized_action = upper action in
      if not (contains control_actions normalized_action)
      then err "unsupported_control_action"
      else if strip reason == ""
      then err "reason_required"
      else elim (control_parameter normalized_action max_position_pct) [
        | err why ↦ err why
        | ok parameter ↦
            if contains confirmation_required_actions normalized_action && not confirmed
            then err "confirmation_required"
            else ok (control_event normalized_action now reason actor symbol confirmed parameter)
      ]

  unfoldable pub record_control_event :
      ArtifactRepository F
      → String
      → ℕ
      → String
      → String
      → Option String
      → Bool
      → Option F
      → PaperControlResult F × ArtifactRepository F
  record_control_event repository action now reason actor symbol confirmed max_position_pct =
      elim (checked_control_event action now reason actor symbol confirmed max_position_pct) [
        | err why ↦ (rejected why, repository)
        | ok event ↦ (
          record { status = "recorded"; reason = none; event = some event },
          save_control_event event repository,
        )
      ]
