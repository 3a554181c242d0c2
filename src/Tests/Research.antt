-- ===== src/Tests/Research.antt =====
-- The research evidence, the grade and the gates.
use paper_forecast_loop.Prelude.{
  ℕ, ◌≡◌, refl, ◌↔◌, ◌≢◌, true, String, none, some, List, [], ◌∷◌, is_some,
}
use mathlib.Core.Option.{some-ne-none}
use paper_forecast_loop.Runtime.Fixed.{Fixed, fixed_runtime}
use paper_forecast_loop.Models.Research.{
  Forecast, ForecastScore, BacktestResult, WalkForwardValidation, EventEdgeEvaluation,
  BaselineEvaluation,
}
use paper_forecast_loop.Models.Portfolio.{RiskSnapshot}
use paper_forecast_loop.Storage.{ArtifactRepository, empty_repository}
use paper_forecast_loop.Baselines.{evidence_grade, build_baseline_evaluation}
use paper_forecast_loop.Baselines.Grade.{Vouched, strong_grade_vouches}
use paper_forecast_loop.ResearchGates.{evaluate_research_gates, research_flags}
use paper_forecast_loop.ResearchGates.Allowed.{IsSupported, directional_exact}
use paper_forecast_loop.Tests.Fixtures.{amount}

abbrev pub forecast : Forecast Fixed
forecast = record {
  forecast_id = "forecast:1";
  symbol = "BTC-USD";
  created_at = 1000;
  anchor_time = 1000;
  target_window_start = 1000;
  target_window_end = 2000;
  candle_interval_minutes = 60;
  expected_candle_count = 24;
  status = "pending";
  status_reason = "awaiting_horizon_end";
  predicted_regime = some "trend_up";
  confidence = some (amount 7 1);
  provider_data_through = none;
  observed_candle_count = 24;
}

abbrev score : ℕ → String → ForecastScore Fixed
score at actual_regime = record {
  score_id = "score:1";
  forecast_id = "forecast:1";
  scored_at = at;
  predicted_regime = "trend_up";
  actual_regime = actual_regime;
  score = amount 1 0;
  target_window_start = 1000;
  target_window_end = 2000;
  candle_interval_minutes = 60;
  expected_candle_count = 24;
  observed_candle_count = 24;
  provider_data_through = 2000;
  scoring_basis = "test";
}

abbrev pub scores : List (ForecastScore Fixed)
scores =
    score 1 "trend_up"
    ∷ score 2 "trend_down"
    ∷ score 3 "trend_up"
    ∷ score 4 "trend_down"
    ∷ score 5 "trend_up"
    ∷ []

abbrev pub backtest : BacktestResult Fixed
backtest = record {
  result_id = "backtest-result:1";
  backtest_id = "backtest-run:1";
  created_at = 1000;
  symbol = "BTC-USD";
  start = 0;
  end = 1000;
  initial_cash = amount 10000 0;
  final_equity = amount 11000 0;
  strategy_return = amount 10 2;
  benchmark_return = amount 5 2;
  max_drawdown = amount 10 2;
  sharpe = none;
  turnover = amount 1 0;
  win_rate = none;
  trade_count = 2;
  equity_curve = [];
  decision_basis = "test";
}

abbrev pub walk_forward : WalkForwardValidation Fixed
walk_forward = record {
  validation_id = "walk-forward:1";
  created_at = 1000;
  symbol = "BTC-USD";
  start = 0;
  end = 1000;
  strategy_name = "moving_average";
  train_size = 4;
  validation_size = 3;
  test_size = 3;
  step_size = 1;
  initial_cash = amount 10000 0;
  fee_bps = amount 5 0;
  slippage_bps = amount 10 0;
  moving_average_window = 3;
  window_count = 1;
  average_validation_return = amount 4 2;
  average_test_return = amount 5 2;
  average_benchmark_return = amount 2 2;
  average_excess_return = amount 3 2;
  test_win_rate = amount 1 0;
  overfit_window_count = 0;
  overfit_risk_flags = [];
  backtest_result_ids = [];
  windows = [];
  decision_basis = "test";
}

abbrev pub event_edge : EventEdgeEvaluation Fixed
event_edge = record {
  evaluation_id = "event-edge:1";
  event_family = "macro";
  event_type = "CPI";
  symbol = "BTC-USD";
  created_at = 1000;
  split = "historical_event_sample";
  horizon_hours = 24;
  sample_n = 8;
  average_forward_return = some (amount 4 2);
  average_benchmark_return = some (amount 1 2);
  average_excess_return_after_costs = some (amount 2 2);
  hit_rate = some (amount 7 1);
  max_adverse_excursion_p50 = none;
  max_adverse_excursion_p90 = none;
  max_drawdown_if_traded = none;
  turnover = none;
  estimated_cost_bps = amount 15 0;
  dsr = none;
  white_rc_p = none;
  stability_score = none;
  passed = true;
  blocked_reason = none;
  flags = [];
  input_event_ids = [];
  input_reaction_check_ids = [];
  input_candle_ids = [];
  input_watermark = none;
}

abbrev pub risk : RiskSnapshot Fixed
risk = record {
  risk_id = "risk:1";
  created_at = 1000;
  symbol = "BTC-USD";
  status = "OK";
  severity = "none";
  current_drawdown_pct = amount 0 0;
  max_drawdown_pct = amount 0 0;
  gross_exposure_pct = amount 0 0;
  net_exposure_pct = amount 0 0;
  position_pct = amount 0 0;
  max_position_pct = amount 15 2;
  max_gross_exposure_pct = amount 20 2;
  reduce_risk_drawdown_pct = amount 5 2;
  stop_new_entries_drawdown_pct = amount 10 2;
  findings = [];
  recommended_action = "HOLD";
  decision_basis = "test";
}

-- evidence that supports a purchase
abbrev pub research_desk : ArtifactRepository Fixed
research_desk = record empty_repository {
  forecasts = forecast ∷ [];
  scores = scores;
  backtest_results = backtest ∷ [];
  walk_forward_validations = walk_forward ∷ [];
  event_edge_evaluations = event_edge ∷ [];
  risk_snapshots = risk ∷ [];
}

abbrev pub baseline : BaselineEvaluation Fixed
baseline = build_baseline_evaluation fixed_runtime "BTC-USD" 2000 (forecast ∷ []) scores 5

strong_grade_vouches_example :
    (is_some (some (amount 1 0)) ≡ true)
    × (is_some (some (amount 5 1)) ≡ true)
    × ((x : Fixed) × (some (amount 5 1) ≡ some x) × Vouched fixed_runtime 5 x (amount 8 1))
unfolding evidence_grade
strong_grade_vouches_example =
    strong_grade_vouches fixed_runtime 5 (some (amount 1 0)) (some (amount 5 1)) (some (amount 5 1))
      (some (amount 8 1)) refl

directional_exact_example :
    ((evaluate_research_gates fixed_runtime baseline
        (some backtest)
        (some walk_forward)
        (some event_edge)
        5
        (amount 0 0)
        (amount 25 2)).directional_allowed
      ≡ true)
    ↔ IsSupported fixed_runtime baseline
        (some backtest)
        (some walk_forward)
        (some event_edge)
        5
        (amount 0 0)
        (amount 25 2)
directional_exact_example =
    directional_exact fixed_runtime baseline (some backtest) (some walk_forward) (some event_edge) 5
      (amount 0 0) (amount 25 2)

abbrev deep_backtest : BacktestResult Fixed
deep_backtest = record backtest { max_drawdown = amount 40 2 }

deep_reduces :
    (evaluate_research_gates fixed_runtime baseline
      (some deep_backtest)
      (some walk_forward)
      (some event_edge)
      5
      (amount 0 0)
      (amount 25 2)).recommended_action
    ≢ none
unfolding evaluate_research_gates research_flags build_baseline_evaluation
deep_reduces = some-ne-none "REDUCE_RISK"
