-- ===== src/Tests/Safety.antt =====
-- The execution safety gate.
use paper_forecast_loop.Prelude.{◌≡◌, refl, true, false, none, some, [], ◌∷◌}
use paper_forecast_loop.Prelude.Text.{contains, upper, lower, dashes_to_underscores}
use paper_forecast_loop.Runtime.Fixed.{Fixed, fixed_runtime}
use paper_forecast_loop.Models.Trading.{HealthCheckResult, BrokerReconciliation}
use paper_forecast_loop.Assets.{get_asset}
use paper_forecast_loop.Control.{current_control_state, paper_order_control_block_reason}
use paper_forecast_loop.Storage.{ArtifactRepository}
use paper_forecast_loop.ExecutionSafety.{
  GateInput, evaluate_execution_safety_gate, subjects_for, checks_for, execution_gate_for,
}
use paper_forecast_loop.ExecutionSafety.Passed.{IsSafe, allowed_gate-IsSafe}
use paper_forecast_loop.Tests.Fixtures.{amount, order, desk}
use paper_forecast_loop.Tests.Research.{risk}

abbrev reconciliation : BrokerReconciliation Fixed
reconciliation = record {
  reconciliation_id = "broker-reconciliation:1";
  created_at = 1500;
  broker = "binance";
  broker_mode = "SANDBOX";
  status = "MATCHED";
  severity = "none";
  repair_required = false;
  local_broker_order_ids = [];
  external_order_refs = [];
  matched_order_refs = [];
  missing_external_order_ids = [];
  unknown_external_order_refs = [];
  duplicate_broker_order_refs = [];
  status_mismatches = [];
  position_mismatches = [];
  cash_mismatch = none;
  equity_mismatch = none;
  findings = [];
  decision_basis = "test";
}

abbrev health : HealthCheckResult
health = record {
  check_id = "health:1";
  created_at = 2000;
  status = "healthy";
  severity = "none";
  repair_required = false;
  repair_request_id = none;
  findings = [];
}

-- a purchase decided and ordered, with a tolerable risk and a broker that agrees
abbrev gate_desk : ArtifactRepository Fixed
gate_desk = record desk {
  paper_orders = order "paper-order:1" "CREATED" ∷ [];
  control_events = [];
  risk_snapshots = risk ∷ [];
  broker_reconciliations = reconciliation ∷ [];
}

abbrev gate_input : GateInput Fixed
gate_input = record {
  symbol = "BTC-USD";
  now = 2000;
  broker = "binance";
  broker_mode = "sandbox";
  broker_health = record {
    status = some "Healthy";
    mode = some "SANDBOX";
    live_trading_available = false;
  };
  decision_id = "latest";
  order_id = "latest";
  min_evidence_grade = "B";
  max_order_position_pct = amount 20 2;
  health_result = health;
  is_trading_day = false;
}

allowed_gate-IsSafe_example :
    (contains ("EXTERNAL_PAPER" ∷ "SANDBOX" ∷ []) "SANDBOX" ≡ true)
    × (("SANDBOX" ≡ dashes_to_underscores (upper "sandbox"))
        × IsSafe fixed_runtime gate_desk gate_input "SANDBOX"
            (subjects_for gate_desk gate_input "SANDBOX"))
unfolding evaluate_execution_safety_gate dashes_to_underscores upper
    paper_order_control_block_reason current_control_state lower get_asset
allowed_gate-IsSafe_example =
    allowed_gate-IsSafe fixed_runtime gate_desk gate_input
      (execution_gate_for fixed_runtime gate_input "SANDBOX"
        (subjects_for gate_desk gate_input "SANDBOX")
        (checks_for fixed_runtime gate_desk gate_input "SANDBOX"
          (subjects_for gate_desk gate_input "SANDBOX")))
      refl refl
