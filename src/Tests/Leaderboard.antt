-- ===== src/Tests/Leaderboard.antt =====
-- The leaderboard gate.
use paper_forecast_loop.Prelude.{refl, none, some, [], ◌∷◌}
use paper_forecast_loop.Runtime.Fixed.{Fixed, fixed_runtime}
use paper_forecast_loop.Models.Research.{BaselineEvaluation, WalkForwardValidation}
use paper_forecast_loop.Models.Evaluation.{
  StrategyCard, ExperimentTrial, SplitManifest, CostModelSnapshot,
}
use paper_forecast_loop.Storage.{ArtifactRepository, empty_repository}
use paper_forecast_loop.LockedEvaluation.{
  by_id, gather, evaluation_for, entry_for, evaluate_leaderboard_gate,
}
use paper_forecast_loop.LockedEvaluation.Gate.{GateRequest, alignment_flags, blocked_reasons}
use paper_forecast_loop.LockedEvaluation.Aligned.{Backed}
use paper_forecast_loop.LockedEvaluation.Rankable.{rankable-Backed}
use paper_forecast_loop.Tests.Fixtures.{amount}
use paper_forecast_loop.Tests.Research.{backtest, walk_forward}

abbrev card : StrategyCard Fixed
card = record {
  card_id = "strategy-card:1";
  created_at = 10;
  strategy_name = "moving average";
  strategy_family = "trend";
  version = "v1";
  status = "ACTIVE";
  symbols = "BTC-USD" ∷ [];
  hypothesis = "test";
  signal_description = "test";
  entry_rules = [];
  exit_rules = [];
  risk_rules = [];
  parameters = [];
  data_requirements = [];
  feature_snapshot_ids = [];
  backtest_result_ids = [];
  walk_forward_validation_ids = [];
  event_edge_evaluation_ids = [];
  parent_card_id = none;
  author = "codex";
  decision_basis = "strategy_card_registered";
}

abbrev trial : ExperimentTrial Fixed
trial = record {
  trial_id = "trial:1";
  created_at = 20;
  strategy_card_id = "strategy-card:1";
  trial_index = 1;
  status = "PASSED";
  symbol = "BTC-USD";
  seed = none;
  dataset_id = some "dataset:1";
  backtest_result_id = some "backtest-result:1";
  walk_forward_validation_id = some "walk-forward:1";
  event_edge_evaluation_id = none;
  prompt_hash = none;
  code_hash = none;
  parameters = [];
  metric_summary = [];
  failure_reason = none;
  started_at = some 20;
  completed_at = some 20;
  decision_basis = "experiment_trial_recorded";
}

abbrev split : SplitManifest
split = record {
  manifest_id = "split:1";
  created_at = 30;
  symbol = "BTC-USD";
  strategy_card_id = "strategy-card:1";
  dataset_id = "dataset:1";
  train_start = 0;
  train_end = 10;
  validation_start = 11;
  validation_end = 20;
  holdout_start = 21;
  holdout_end = 30;
  embargo_hours = 24;
  status = "LOCKED";
  locked_by = "codex";
  decision_basis = "locked_evaluation_protocol";
}

abbrev cost_model : CostModelSnapshot Fixed
cost_model = record {
  cost_model_id = "cost:1";
  created_at = 30;
  symbol = "BTC-USD";
  fee_bps = amount 5 0;
  slippage_bps = amount 10 0;
  max_turnover = amount 5 0;
  max_drawdown = amount 10 2;
  baseline_suite_version = "m4b-v1";
  status = "LOCKED";
  decision_basis = "locked_cost_model_snapshot";
}

abbrev graded_baseline : BaselineEvaluation Fixed
graded_baseline = record {
  baseline_id = "baseline:1";
  created_at = 40;
  symbol = "BTC-USD";
  sample_size = 5;
  directional_accuracy = some (amount 9 1);
  baseline_accuracy = some (amount 5 1);
  model_edge = some (amount 4 1);
  recent_score = some (amount 9 1);
  evidence_grade = "B";
  forecast_ids = [];
  score_ids = [];
  decision_basis = "test";
  baseline_results = [];
}

abbrev walked : WalkForwardValidation Fixed
walked = record walk_forward { backtest_result_ids = "backtest-result:1" ∷ [] }

abbrev pub lab : ArtifactRepository Fixed
lab = record empty_repository {
  strategy_cards = card ∷ [];
  experiment_trials = trial ∷ [];
  split_manifests = split ∷ [];
  cost_model_snapshots = cost_model ∷ [];
  baseline_evaluations = graded_baseline ∷ [];
  backtest_results = backtest ∷ [];
  walk_forward_validations = walked ∷ [];
}

abbrev pub gate_request : GateRequest
gate_request = record {
  created_at = 50;
  strategy_card_id = "strategy-card:1";
  trial_id = "trial:1";
  split_manifest_id = "split:1";
  cost_model_id = "cost:1";
  baseline_id = "baseline:1";
  backtest_result_id = "backtest-result:1";
  walk_forward_validation_id = "walk-forward:1";
  event_edge_evaluation_id = none;
}

rankable-Backed_example : Backed fixed_runtime gate_request (gather lab gate_request)
unfolding evaluate_leaderboard_gate evaluation_for entry_for gather by_id blocked_reasons
    alignment_flags
rankable-Backed_example = rankable-Backed fixed_runtime lab gate_request refl
