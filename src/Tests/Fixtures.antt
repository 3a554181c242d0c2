-- ===== src/Tests/Fixtures.antt =====
-- The artifacts on which the tests run.
use paper_forecast_loop.Prelude.{ℕ, String, true, false, Option, none, some, [], ◌∷◌}
use paper_forecast_loop.Runtime.Fixed.{Fixed, fixed_runtime}
use paper_forecast_loop.Models.Trading.{StrategyDecision, PaperControlEvent, PaperOrder}
use paper_forecast_loop.Storage.{ArtifactRepository, empty_repository}

abbrev pub amount : ℕ → ℕ → Fixed
amount = fixed_runtime.dec

abbrev pub decision : String → String → StrategyDecision Fixed
decision id action = record {
  decision_id = id;
  created_at = 100;
  symbol = "BTC-USD";
  horizon_hours = 24;
  action = action;
  confidence = none;
  evidence_grade = "A";
  risk_level = "MEDIUM";
  tradeable = true;
  blocked_reason = none;
  recommended_position_pct = some (amount 15 2);
  current_position_pct = some (amount 0 0);
  max_position_pct = amount 15 2;
  invalidation_conditions = [];
  reason_summary = "bullish";
  forecast_ids = [];
  score_ids = [];
  review_ids = [];
  baseline_ids = [];
  decision_basis = "test";
}

abbrev pub control : ℕ → String → Option String → PaperControlEvent Fixed
control at action symbol = record {
  control_id = action;
  created_at = at;
  action = action;
  actor = "operator";
  reason = "test";
  status = "ACTIVE";
  symbol = symbol;
  requires_confirmation = false;
  confirmed = true;
  parameter_name = none;
  parameter_value = none;
  decision_basis = "test";
}

abbrev pub order : String → String → PaperOrder Fixed
order id status = record {
  order_id = id;
  created_at = 90;
  decision_id = "decision:0";
  symbol = "BTC-USD";
  side = "BUY";
  order_type = "TARGET_PERCENT";
  status = status;
  target_position_pct = some (amount 15 2);
  current_position_pct = some (amount 0 0);
  max_position_pct = amount 15 2;
  rationale = "test";
}

-- One purchase decided, an old order filled, and a pause that was taken back.
abbrev pub desk : ArtifactRepository Fixed
desk = record empty_repository {
  strategy_decisions = decision "decision:1" "BUY" ∷ [];
  paper_orders = order "paper-order:0" "FILLED" ∷ [];
  control_events = control 20 "RESUME" none ∷ control 10 "PAUSE" (some "BTC-USD") ∷ [];
}
