-- ===== src/Coding/Trading.antt =====
-- models.py: `to_dict` and `from_dict` of control events, paper orders, broker orders and fills.
use paper_forecast_loop.Prelude.{[], ◌∷◌, Result, ok, ◌>>=◌}
use paper_forecast_loop.Prelude.Text.{upper, contains, concat}
use paper_forecast_loop.Runtime.{
  Runtime, zero_point, Dict, text, number, flag, object_of, text_or_null, number_or_null,
}
use paper_forecast_loop.Models.Trading.{PaperControlEvent, PaperOrder, BrokerOrder}
use paper_forecast_loop.Models.Trading.Enums.{broker_order_statuses}
use paper_forecast_loop.Control.{control_actions}
use paper_forecast_loop.Coding.{
  Codec, text_at, text_or, number_or, optional_text, optional_number, truth, dict_at,
  require_string, require_aware_datetime, optional_float, datetime_at, raise_unless,
}

module _ {F : Type 0} (rt : Runtime F) where
  unfoldable pub control_event_to_dict : PaperControlEvent F → Dict F
  control_event_to_dict e =
      ("control_id", text e.control_id)
      ∷ ("created_at", text (rt.isoformat e.created_at))
      ∷ ("action", text e.action)
      ∷ ("actor", text e.actor)
      ∷ ("reason", text e.reason)
      ∷ ("status", text e.status)
      ∷ ("symbol", text_or_null e.symbol)
      ∷ ("requires_confirmation", flag e.requires_confirmation)
      ∷ ("confirmed", flag e.confirmed)
      ∷ ("parameter_name", text_or_null e.parameter_name)
      ∷ ("parameter_value", number_or_null e.parameter_value)
      ∷ ("decision_basis", text e.decision_basis)
      ∷ []

  unfoldable pub paper_order_to_dict : PaperOrder F → Dict F
  paper_order_to_dict o =
      ("order_id", text o.order_id)
      ∷ ("created_at", text (rt.isoformat o.created_at))
      ∷ ("decision_id", text o.decision_id)
      ∷ ("symbol", text o.symbol)
      ∷ ("side", text o.side)
      ∷ ("order_type", text o.order_type)
      ∷ ("status", text o.status)
      ∷ ("target_position_pct", number_or_null o.target_position_pct)
      ∷ ("current_position_pct", number_or_null o.current_position_pct)
      ∷ ("max_position_pct", number o.max_position_pct)
      ∷ ("rationale", text o.rationale)
      ∷ []

  unfoldable pub broker_order_to_dict : BrokerOrder F → Dict F
  broker_order_to_dict o =
      ("broker_order_id", text o.broker_order_id)
      ∷ ("created_at", text (rt.isoformat o.created_at))
      ∷ ("updated_at", text (rt.isoformat o.updated_at))
      ∷ ("local_order_id", text o.local_order_id)
      ∷ ("decision_id", text o.decision_id)
      ∷ ("symbol", text o.symbol)
      ∷ ("side", text o.side)
      ∷ ("quantity", number_or_null o.quantity)
      ∷ ("target_position_pct", number_or_null o.target_position_pct)
      ∷ ("broker", text o.broker)
      ∷ ("broker_mode", text o.broker_mode)
      ∷ ("status", text o.status)
      ∷ ("broker_status", text_or_null o.broker_status)
      ∷ ("broker_order_ref", text_or_null o.broker_order_ref)
      ∷ ("client_order_id", text_or_null o.client_order_id)
      ∷ ("error_message", text_or_null o.error_message)
      ∷ ("raw_response", object_of o.raw_response)
      ∷ ("decision_basis", text o.decision_basis)
      ∷ []

module _ {F Line : Type 0} (codec : Codec F Line) where
  unfoldable pub control_event_from_dict : Dict F → Result (PaperControlEvent F)
  unfolding require_string require_aware_datetime optional_float
  control_event_from_dict payload = do
    action ← require_string payload "action"
    let action = upper action
    _ ←
        raise_unless (contains control_actions action)
          (concat ("unsupported paper control action: " ∷ action ∷ []))
    control_id ← require_string payload "control_id"
    created_at ← require_aware_datetime codec payload "created_at"
    actor ← text_or payload "actor" "operator"
    reason ← require_string payload "reason"
    status ← text_or payload "status" "ACTIVE"
    symbol ← optional_text payload "symbol"
    requires_confirmation ← truth payload "requires_confirmation"
    confirmed ← truth payload "confirmed"
    parameter_name ← optional_text payload "parameter_name"
    parameter_value ← optional_float codec payload "parameter_value"
    decision_basis ← text_or payload "decision_basis" "legacy_paper_control"
    ok (record {
      control_id = control_id;
      created_at = created_at;
      action = action;
      actor = actor;
      reason = reason;
      status = status;
      symbol = symbol;
      requires_confirmation = requires_confirmation;
      confirmed = confirmed;
      parameter_name = parameter_name;
      parameter_value = parameter_value;
      decision_basis = decision_basis;
    })

  unfoldable pub broker_order_from_dict : Dict F → Result (BrokerOrder F)
  unfolding require_string require_aware_datetime optional_float
  broker_order_from_dict payload = do
    status ← require_string payload "status"
    _ ←
        raise_unless (contains broker_order_statuses status)
          (concat ("unsupported broker order status: " ∷ status ∷ []))
    broker_order_id ← require_string payload "broker_order_id"
    created_at ← require_aware_datetime codec payload "created_at"
    updated_at ← require_aware_datetime codec payload "updated_at"
    local_order_id ← require_string payload "local_order_id"
    decision_id ← require_string payload "decision_id"
    symbol ← require_string payload "symbol"
    side ← require_string payload "side"
    quantity ← optional_float codec payload "quantity"
    target_position_pct ← optional_float codec payload "target_position_pct"
    broker ← text_or payload "broker" "unknown"
    broker_mode ← text_or payload "broker_mode" "SANDBOX"
    broker_status ← optional_text payload "broker_status"
    broker_order_ref ← optional_text payload "broker_order_ref"
    client_order_id ← optional_text payload "client_order_id"
    error_message ← optional_text payload "error_message"
    raw_response ← dict_at payload "raw_response"
    decision_basis ← text_or payload "decision_basis" "legacy_broker_order"
    ok (record {
      broker_order_id = broker_order_id;
      created_at = created_at;
      updated_at = updated_at;
      local_order_id = local_order_id;
      decision_id = decision_id;
      symbol = symbol;
      side = side;
      quantity = quantity;
      target_position_pct = target_position_pct;
      broker = broker;
      broker_mode = broker_mode;
      status = status;
      broker_status = broker_status;
      broker_order_ref = broker_order_ref;
      client_order_id = client_order_id;
      error_message = error_message;
      raw_response = raw_response;
      decision_basis = decision_basis;
    })

module _ {F Line : Type 0} (rt : Runtime F) (codec : Codec F Line) where
  unfoldable pub paper_order_from_dict : Dict F → Result (PaperOrder F)
  unfolding datetime_at
  paper_order_from_dict payload = do
    order_id ← text_at payload "order_id"
    created_at ← datetime_at codec payload "created_at"
    decision_id ← text_at payload "decision_id"
    symbol ← text_at payload "symbol"
    side ← text_at payload "side"
    order_type ← text_or payload "order_type" "TARGET_PERCENT"
    status ← text_or payload "status" "CREATED"
    target_position_pct ← optional_number payload "target_position_pct"
    current_position_pct ← optional_number payload "current_position_pct"
    max_position_pct ← number_or payload "max_position_pct" (zero_point rt)
    rationale ← text_or payload "rationale" "legacy_paper_order"
    ok (record {
      order_id = order_id;
      created_at = created_at;
      decision_id = decision_id;
      symbol = symbol;
      side = side;
      order_type = order_type;
      status = status;
      target_position_pct = target_position_pct;
      current_position_pct = current_position_pct;
      max_position_pct = max_position_pct;
      rationale = rationale;
    })
