-- ===== src/Orders.antt =====
-- orders.py: a paper order from a strategy decision. The checks run in the source's order; a method
-- that writes returns its result and the new repository.
pub mod Single
pub mod Effect
pub mod Emergency
use paper_forecast_loop.Prelude.{
  ℕ, String, Bool, true, false, not, ◌&&◌, ◌||◌, Option, none, some, List, [], ◌∷◌, ◌==◌,
  if◌then◌else◌, keep, last?, find?,
}
use paper_forecast_loop.Prelude.Text.{contains}
use paper_forecast_loop.Runtime.{Runtime}
use paper_forecast_loop.Models.Trading.{StrategyDecision, PaperOrder, HealthCheckResult}
use paper_forecast_loop.Models.Trading.Ids.{build_paper_order_id}
use paper_forecast_loop.Models.Trading.Enums.{
  PaperOrderStatus, order_status_value, side_value, buy, sell, order_type_value, target_percent,
}
use paper_forecast_loop.Storage.{ArtifactRepository, save_paper_order}
use paper_forecast_loop.Control.{current_control_state, paper_order_control_block_reason}

abbrev pub active_order_statuses : List String
active_order_statuses = order_status_value PaperOrderStatus.created ∷ []

abbrev pub orderable_actions : List String
orderable_actions = "BUY" ∷ "SELL" ∷ "REDUCE_RISK" ∷ []

pub record PaperOrderResult (F : Type 0) : Type 0 where
  pub status : String
  pub reason : Option String
  pub decision_id : Option String
  pub order : Option (PaperOrder F)
  pub active_order_id : Option String

module _ {F : Type 0} where
  abbrev pub skipped : String → Option String → Option String → PaperOrderResult F
  skipped reason decision_id active_order_id = record {
    status = "skipped";
    reason = some reason;
    decision_id = decision_id;
    order = none;
    active_order_id = active_order_id;
  }

  unfoldable pub select_decision :
      List (StrategyDecision F) → String → String → Option (StrategyDecision F)
  select_decision decisions decision_id symbol =
      if decision_id == "latest"
      then last? (keep (λ d. d.symbol == symbol) decisions)
      else find? (λ d. d.decision_id == decision_id) decisions

  abbrev pub side_for_decision : StrategyDecision F → String
  side_for_decision decision = if decision.action == "BUY" then side_value buy else side_value sell

  -- the test of `_active_order_for_symbol`
  abbrev pub is_active : String → PaperOrder F → Bool
  is_active symbol order = order.symbol == symbol && contains active_order_statuses order.status

  abbrev pub active_order_for_symbol : List (PaperOrder F) → String → Option (PaperOrder F)
  active_order_for_symbol orders symbol = find? (is_active symbol) orders

-- `health_result is not None and (severity == "blocking" or repair_required)`
abbrev pub health_blocks : Option HealthCheckResult → Bool
health_blocks none = false
health_blocks (some health) = health.severity == "blocking" || health.repair_required

-- What the checks on a decision come to.
pub data OrderCheck (F : Type 0) : Type 0 where
  skip : String → Option String → OrderCheck F
  place : PaperOrder F → OrderCheck F

module _ {F : Type 0} (rt : Runtime F) where
  unfoldable pub order_for_decision : ℕ → StrategyDecision F → PaperOrder F
  order_for_decision now decision =
      let side = side_for_decision decision in
      let order_type = order_type_value target_percent in
      record {
        order_id =
            build_paper_order_id rt decision.decision_id decision.symbol side
              decision.recommended_position_pct order_type;
        created_at = now;
        decision_id = decision.decision_id;
        symbol = decision.symbol;
        side = side;
        order_type = order_type;
        status = order_status_value PaperOrderStatus.created;
        target_position_pct = decision.recommended_position_pct;
        current_position_pct = decision.current_position_pct;
        max_position_pct = decision.max_position_pct;
        rationale = decision.reason_summary;
      }

  -- the checks from the decision's action to the active order
  unfoldable pub check_decision : ArtifactRepository F → ℕ → StrategyDecision F → OrderCheck F
  check_decision repository now decision =
      if contains ("HOLD" ∷ "STOP_NEW_ENTRIES" ∷ []) decision.action
      then skip "action_creates_no_order" none
      else if not (contains orderable_actions decision.action)
      then skip "unsupported_decision_action" none
      else if not decision.tradeable
      then skip "decision_not_tradeable" none
      else elim (paper_order_control_block_reason rt
          (current_control_state repository.control_events (some decision.symbol)) decision) [
            | some reason ↦ skip reason none
            | none ↦ elim (active_order_for_symbol repository.paper_orders decision.symbol) [
              | some active ↦ skip "duplicate_active_order" (some active.order_id)
              | none ↦ place (order_for_decision now decision)
            ]
          ]

  abbrev pub conclude :
      ArtifactRepository F
      → StrategyDecision F
      → OrderCheck F
      → PaperOrderResult F × ArtifactRepository F
  conclude repository decision (skip reason active) =
      (skipped reason (some decision.decision_id) active, repository)
  conclude repository decision (place order) = (
    record {
      status = "created";
      reason = none;
      decision_id = some decision.decision_id;
      order = some order;
      active_order_id = none;
    },
    save_paper_order order repository,
  )

  abbrev pub for_selected :
      ArtifactRepository F
      → String
      → ℕ
      → Option (StrategyDecision F)
      → PaperOrderResult F × ArtifactRepository F
  for_selected repository decision_id now none = (
    skipped "decision_not_found" (if decision_id == "latest" then none else some decision_id) none,
    repository,
  )
  for_selected repository decision_id now (some decision) =
      conclude repository decision (check_decision repository now decision)

  unfoldable pub create_paper_order_from_decision :
      ArtifactRepository F
      → String
      → String
      → ℕ
      → Option HealthCheckResult
      → PaperOrderResult F × ArtifactRepository F
  create_paper_order_from_decision repository decision_id symbol now health_result =
      if health_blocks health_result
      then (skipped "health_blocking" none none, repository)
      else for_selected repository decision_id now
          (select_decision repository.strategy_decisions decision_id symbol)
