-- ===== src/ExecutionSafety.antt =====
-- execution_safety.py: the gate before an external paper order. What other modules find out is handed
-- in: the outcome of run_health_check, and whether the day of the call is a trading day of the US
-- market.
pub mod Checks
pub mod Subjects
pub mod Passed
use paper_forecast_loop.Prelude.{
  ℕ, String, Bool, true, false, not, ◌&&◌, Option, none, some, List, [], ◌∷◌, ◌++◌, ◌==◌,
  if◌then◌else◌, all, map, find?, last?, keep, is_empty, Result, ok, err,
}
use paper_forecast_loop.Prelude.Text.{contains, concat, upper, dashes_to_underscores}
use paper_forecast_loop.Runtime.{Runtime}
use paper_forecast_loop.Models.Trading.{
  StrategyDecision, PaperOrder, HealthCheckResult, BrokerReconciliation, ExecutionSafetyGate,
}
use paper_forecast_loop.Models.Trading.Ids.{build_gate_id}
use paper_forecast_loop.Models.Portfolio.{RiskSnapshot}
use paper_forecast_loop.Storage.{ArtifactRepository, save_execution_safety_gate}
use paper_forecast_loop.Assets.{get_asset}
use paper_forecast_loop.BrokerLifecycle.{allowed_modes}
use Checks.{
  Check, check, check_to_dict, passed, decision_checks, control_checks, risk_checks, BrokerHealth,
  broker_health_checks, order_checks, reconciliation_checks, market_check,
}

pub record GateInput (F : Type 0) : Type 0 where
  pub symbol : String
  pub now : ℕ
  pub broker : String
  pub broker_mode : String
  pub broker_health : BrokerHealth
  pub decision_id : String
  pub order_id : String
  pub min_evidence_grade : String
  pub max_order_position_pct : F
  pub health_result : HealthCheckResult
  pub is_trading_day : Bool

unfoldable pub normalize_gate_mode : String → Result String
normalize_gate_mode mode =
    let normalized = dashes_to_underscores (upper mode) in
    if not (contains allowed_modes normalized)
    then err (
        concat (
          "unsupported execution safety broker mode: " ∷ mode
          ∷ "; allowed modes are EXTERNAL_PAPER and SANDBOX. Live trading is unavailable." ∷ []))
    else ok normalized

-- `x.id if x else None`
abbrev id_of : {A : Type 0} → (A → String) → Option A → Option String
id_of id none = none
id_of id (some x) = some (id x)

module _ {F : Type 0} where
  unfoldable pub select_gate_decision :
      List (StrategyDecision F) → String → String → Option (StrategyDecision F)
  select_gate_decision decisions decision_id symbol =
      if decision_id == "latest"
      then last? (keep (λ d. d.symbol == symbol) decisions)
      else find? (λ d. d.decision_id == decision_id) decisions

  abbrev latest_of : List (PaperOrder F) → Option (StrategyDecision F) → Option (PaperOrder F)
  latest_of scoped none = last? scoped
  latest_of scoped (some decision) =
      let matching = keep (λ o. o.decision_id == decision.decision_id) scoped in
      if is_empty matching then last? scoped else last? matching

  unfoldable pub select_gate_order :
      List (PaperOrder F) → String → String → Option (StrategyDecision F) → Option (PaperOrder F)
  select_gate_order orders order_id symbol decision =
      if not (order_id == "latest")
      then find? (λ o. o.order_id == order_id) orders
      else latest_of (keep (λ o. o.symbol == symbol) orders) decision

  unfoldable pub latest_gate_risk : List (RiskSnapshot F) → String → Option (RiskSnapshot F)
  latest_gate_risk snapshots symbol = last? (keep (λ s. s.symbol == symbol) snapshots)

  unfoldable pub latest_reconciliation :
      List (BrokerReconciliation F) → String → String → Option (BrokerReconciliation F)
  latest_reconciliation reconciliations broker broker_mode =
      last? (keep (λ r. r.broker == broker && r.broker_mode == broker_mode) reconciliations)

-- What the gate looks at, selected from the repository.
pub record GateSubjects (F : Type 0) : Type 0 where
  pub decision : Option (StrategyDecision F)
  pub order : Option (PaperOrder F)
  pub risk : Option (RiskSnapshot F)
  pub reconciliation : Option (BrokerReconciliation F)

module _ {F : Type 0} where
  unfoldable pub subjects_for : ArtifactRepository F → GateInput F → String → GateSubjects F
  unfolding select_gate_decision select_gate_order latest_gate_risk latest_reconciliation
  subjects_for repository i broker_mode =
      let decision = select_gate_decision repository.strategy_decisions i.decision_id i.symbol in
      record {
        decision = decision;
        order = select_gate_order repository.paper_orders i.order_id i.symbol decision;
        risk = latest_gate_risk repository.risk_snapshots i.symbol;
        reconciliation =
            latest_reconciliation repository.broker_reconciliations i.broker broker_mode;
      }

module _ {F : Type 0} (rt : Runtime F) where
  unfoldable pub checks_for :
      ArtifactRepository F → GateInput F → String → GateSubjects F → List Check
  unfolding decision_checks control_checks risk_checks broker_health_checks order_checks
      reconciliation_checks market_check
  checks_for repository i broker_mode subjects =
      check "health_check" (i.health_result.status == "healthy")
        (concat ("health_status=" ∷ i.health_result.status ∷ [])) (some i.health_result.check_id)
      ∷ (decision_checks subjects.decision i.min_evidence_grade
          ++ (control_checks rt repository.control_events subjects.decision
              ++ (risk_checks subjects.risk subjects.decision
                  ++ (broker_health_checks i.broker_health broker_mode
                      ++ (order_checks rt subjects.order subjects.decision repository.paper_orders
                            repository.broker_orders i.broker broker_mode i.max_order_position_pct
                          ++ (reconciliation_checks subjects.reconciliation
                              ++ market_check i.symbol (get_asset i.symbol) i.is_trading_day
                                ∷ []))))))

  unfoldable pub execution_gate_for :
      GateInput F → String → GateSubjects F → List Check → ExecutionSafetyGate F
  unfolding build_gate_id
  execution_gate_for i broker_mode subjects checks =
      let allowed = all passed checks in
      let decision_id = id_of (λ (d : StrategyDecision F). d.decision_id) subjects.decision in
      let order_id = id_of (λ (o : PaperOrder F). o.order_id) subjects.order in
      record {
        gate_id =
            build_gate_id rt i.now i.symbol decision_id order_id i.broker broker_mode
              (map check_to_dict checks);
        created_at = i.now;
        symbol = i.symbol;
        decision_id = decision_id;
        order_id = order_id;
        broker = i.broker;
        broker_mode = broker_mode;
        status = if allowed then "PASS" else "BLOCKED";
        severity = if allowed then "none" else "blocking";
        allowed = allowed;
        checks = map check_to_dict checks;
        health_check_id = some i.health_result.check_id;
        risk_id = id_of (λ (r : RiskSnapshot F). r.risk_id) subjects.risk;
        broker_reconciliation_id =
            id_of (λ (r : BrokerReconciliation F). r.reconciliation_id) subjects.reconciliation;
        decision_basis = "paper-only external execution safety gate; no broker submit is performed";
      }

  unfoldable pub evaluate_execution_safety_gate :
      ArtifactRepository F → GateInput F → Result (ExecutionSafetyGate F) × ArtifactRepository F
  unfolding normalize_gate_mode execution_gate_for checks_for subjects_for
  evaluate_execution_safety_gate repository i = elim (normalize_gate_mode i.broker_mode) [
    | err why ↦ (err why, repository)
    | ok broker_mode ↦
        let subjects = subjects_for repository i broker_mode in
        let gate =
          execution_gate_for i broker_mode subjects
            (checks_for repository i broker_mode subjects) in
        (ok gate, save_execution_safety_gate gate repository)
  ]
