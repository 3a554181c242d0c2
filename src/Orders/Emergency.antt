-- ===== src/Orders/Emergency.antt =====
-- An operator's emergency stop holds every paper order back (control.py and orders.py together).
use paper_forecast_loop.Prelude.{
  ℕ, ◌≤◌, String, ◌≡◌, refl, inl, inr, true, false, Option, none, some, All, ◌==◌, ok,
}
use paper_forecast_loop.Prelude.Text.{upper, strip}
use paper_forecast_loop.Runtime.{Runtime}
use paper_forecast_loop.Models.Trading.{HealthCheckResult, PaperControlEvent}
use paper_forecast_loop.Storage.{ArtifactRepository, save_control_event}
use paper_forecast_loop.Storage.Unique.{has_id, append_unique_new}
use paper_forecast_loop.Control.{
  PaperControlResult, record_control_event, checked_control_event, control_parameter, control_event,
  current_control_state,
}
use paper_forecast_loop.Control.State.{emergency_stops}
use paper_forecast_loop.Orders.{create_paper_order_from_decision}
use paper_forecast_loop.Orders.Effect.{create_paper_order-Effect}

module _ {F : Type 0} (rt : Runtime F) where
  -- While the control state of every symbol has the emergency stop on, no call creates an order.
  stopped_creates_none :
      (repository : ArtifactRepository F)
      → ((symbol : String)
          → (current_control_state repository.control_events (some symbol)).emergency_stop ≡ true)
      → (decision_id symbol : String) (now : ℕ) (health : Option HealthCheckResult)
      → let (result, after) =
          create_paper_order_from_decision rt repository decision_id symbol now health in
        (result.status ≡ "skipped") × (result.order ≡ none) × (after ≡ repository)
  stopped_creates_none repository stopped decision_id symbol now health =
      elim (create_paper_order-Effect rt repository decision_id symbol now health) [
        | inl idle ↦ idle
        | inr (d, _, _, ready, _, _, _) ↦ cc (stopped d.symbol, ready.permitted.running)
      ]

  module _ (repository : ArtifactRepository F) (at : ℕ) (reason actor : String)
      (cap : Option F) where
    -- the event of an emergency stop for all symbols
    abbrev pub stop_event : PaperControlEvent F
    stop_event = control_event rt "EMERGENCY_STOP" at reason actor none true (none, none)

    -- the request for one, confirmed
    abbrev pub stop_request : PaperControlResult F × ArtifactRepository F
    stop_request = record_control_event rt repository "emergency_stop" at reason actor none true cap

    stop_checked :
        (strip reason == "") ≡ false
        → checked_control_event rt "emergency_stop" at reason actor none true cap ≡ ok stop_event
    unfolding checked_control_event control_parameter upper
    stop_checked given = rw given

    stop_recorded :
        (strip reason == "") ≡ false → stop_request.1 ≡ save_control_event stop_event repository
    unfolding record_control_event
    stop_recorded given = rw (stop_checked given, record_control_event)

    stop_reaches :
        All (λ x. x.created_at ≤ at) repository.control_events
        → has_id (λ x. x.control_id) stop_event.control_id repository.control_events ≡ false
        → (symbol : String)
        → (current_control_state
            (save_control_event stop_event repository).control_events
            (some symbol)).emergency_stop
          ≡ true
    unfolding control_event
    stop_reaches earlier fresh symbol =
        rw (append_unique_new (λ x. x.control_id) repository.control_events stop_event fresh)
          (emergency_stops repository.control_events stop_event (some symbol) earlier refl refl)

    -- A confirmed emergency stop for all symbols, with a reason, at or after the time of every stored
    -- control event and under an id that is not in use, is always recorded; and on the repository
    -- after it every call for an order, whatever its arguments, is skipped and changes nothing.
    pub emergency_stop_holds_orders :
        (strip reason == "") ≡ false
        → All (λ x. x.created_at ≤ at) repository.control_events
        → has_id (λ x. x.control_id) stop_event.control_id repository.control_events ≡ false
        → (decision_id symbol : String) (now : ℕ) (health : Option HealthCheckResult)
        → let stopped = stop_request.1 in
          let (result, after) =
            create_paper_order_from_decision rt stopped decision_id symbol now health in
          (stopped ≡ save_control_event stop_event repository)
          × (result.status ≡ "skipped")
          × (result.order ≡ none)
          × (after ≡ stopped)
    emergency_stop_holds_orders given earlier fresh decision_id symbol now health =
        rw (stop_recorded given) (refl, held.0, held.1, held.2)
      where
        held :
            let (result, after) =
              create_paper_order_from_decision rt
                (save_control_event stop_event repository)
                decision_id
                symbol
                now
                health in
            (result.status ≡ "skipped")
            × (result.order ≡ none)
            × (after ≡ save_control_event stop_event repository)
        held =
            stopped_creates_none (save_control_event stop_event repository)
              (stop_reaches earlier fresh) decision_id symbol now health
