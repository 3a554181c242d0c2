-- ===== src/LockedEvaluation/Gate.antt =====
-- The reasons that block an evaluation, and its score (locked_evaluation.py).
use paper_forecast_loop.Prelude.{
  ℕ, String, Bool, false, not, Option, none, some, List, [], ◌∷◌, ◌++◌, ◌==◌, if◌then◌else◌, ltb,
  is_empty, is_none,
}
use paper_forecast_loop.Prelude.Text.{contains, is_text}
use paper_forecast_loop.Runtime.{Runtime, zero_point}
use paper_forecast_loop.Models.Research.{
  BaselineEvaluation, BacktestResult, WalkForwardValidation, EventEdgeEvaluation,
}
use paper_forecast_loop.Models.Evaluation.{
  StrategyCard, ExperimentTrial, SplitManifest, CostModelSnapshot,
}
use paper_forecast_loop.ResearchGates.{flag_if}

-- The arguments of `evaluate_leaderboard_gate`.
pub record GateRequest : Type 0 where
  pub created_at : ℕ
  pub strategy_card_id : String
  pub trial_id : String
  pub split_manifest_id : String
  pub cost_model_id : String
  pub baseline_id : String
  pub backtest_result_id : String
  pub walk_forward_validation_id : String
  pub event_edge_evaluation_id : Option String

-- The artifacts that the ids stand for.
pub record Gathered (F : Type 0) : Type 0 where
  pub card : Option (StrategyCard F)
  pub trial : Option (ExperimentTrial F)
  pub split : Option SplitManifest
  pub cost_model : Option (CostModelSnapshot F)
  pub baseline : Option (BaselineEvaluation F)
  pub backtest : Option (BacktestResult F)
  pub walk_forward : Option (WalkForwardValidation F)
  pub event_edge : Option (EventEdgeEvaluation F)

-- `if event_edge_evaluation_id`: given, and not the empty text
abbrev pub is_given : Option String → Bool
is_given none = false
is_given (some id) = not (id == "")

abbrev pub split_flags : Option SplitManifest → List String
split_flags none = "split_manifest_missing" ∷ []
split_flags (some split) = flag_if (not (split.status == "LOCKED")) "split_manifest_not_locked"

abbrev pub dataset_alignment : SplitManifest → Option String → List String
dataset_alignment split none = "experiment_trial_dataset_missing" ∷ []
dataset_alignment split (some dataset_id) =
    flag_if (not (split.dataset_id == dataset_id)) "split_manifest_dataset_mismatch"

module _ {F : Type 0} where
  abbrev pub card_flags : Option (StrategyCard F) → List String
  card_flags none = "strategy_card_missing" ∷ []
  card_flags (some card) = []

  abbrev pub trial_flags : String → Option (ExperimentTrial F) → List String
  trial_flags strategy_card_id none = "experiment_trial_missing" ∷ []
  trial_flags strategy_card_id (some trial) =
      if not (trial.strategy_card_id == strategy_card_id)
      then "experiment_trial_strategy_card_mismatch" ∷ []
      else flag_if (not (trial.status == "PASSED")) "experiment_trial_not_passed"

  abbrev pub cost_flags : Option (CostModelSnapshot F) → List String
  cost_flags none = "cost_model_missing" ∷ []
  cost_flags (some cost_model) =
      flag_if (not (cost_model.status == "LOCKED")) "cost_model_not_locked"

  abbrev pub event_flags : Option String → Option (EventEdgeEvaluation F) → List String
  event_flags id none = flag_if (is_given id) "event_edge_evaluation_missing"
  event_flags id (some event_edge) = flag_if (not event_edge.passed) "event_edge_not_passed"

  -- the branches of `_check_artifact_alignment`, in their order
  abbrev pub card_alignment : Option (StrategyCard F) → ExperimentTrial F → List String
  card_alignment none trial = []
  card_alignment (some card) trial =
      flag_if (not (contains card.symbols trial.symbol)) "strategy_card_symbol_mismatch"

  abbrev pub split_trial_alignment : SplitManifest → Option (ExperimentTrial F) → List String
  split_trial_alignment split none = []
  split_trial_alignment split (some trial) =
      dataset_alignment split trial.dataset_id
      ++ flag_if (not (split.symbol == trial.symbol)) "split_manifest_symbol_mismatch"

  abbrev pub split_alignment :
      String → Option SplitManifest → Option (ExperimentTrial F) → List String
  split_alignment strategy_card_id none trial = []
  split_alignment strategy_card_id (some split) trial =
      flag_if (not (split.strategy_card_id == strategy_card_id))
        "split_manifest_strategy_card_mismatch"
      ++ split_trial_alignment split trial

  -- `if a is not None and a.symbol != trial.symbol`
  abbrev pub symbol_alignment :
      {A : Type 0} → (A → String) → String → Option A → ExperimentTrial F → List String
  symbol_alignment symbol flag none trial = []
  symbol_alignment symbol flag (some a) trial = flag_if (not (symbol a == trial.symbol)) flag

  abbrev pub backtest_alignment :
      String → Option (BacktestResult F) → ExperimentTrial F → List String
  backtest_alignment id none trial = []
  backtest_alignment id (some backtest) trial =
      flag_if (not (is_text trial.backtest_result_id id))
        "experiment_trial_backtest_result_mismatch"
      ++ flag_if (not (backtest.symbol == trial.symbol)) "backtest_symbol_mismatch"

  abbrev pub holds_backtest : WalkForwardValidation F → Option (BacktestResult F) → List String
  holds_backtest walk_forward none = []
  holds_backtest walk_forward (some backtest) =
      flag_if (not (contains walk_forward.backtest_result_ids backtest.result_id))
        "walk_forward_backtest_result_mismatch"

  abbrev pub walk_alignment :
      String
      → Option (WalkForwardValidation F)
      → Option (BacktestResult F)
      → ExperimentTrial F
      → List String
  walk_alignment id none backtest trial = []
  walk_alignment id (some walk_forward) backtest trial =
      flag_if (not (is_text trial.walk_forward_validation_id id))
        "experiment_trial_walk_forward_validation_mismatch"
      ++ (flag_if (not (walk_forward.symbol == trial.symbol)) "walk_forward_symbol_mismatch"
          ++ holds_backtest walk_forward backtest)

  abbrev pub event_alignment :
      Option String → Option (EventEdgeEvaluation F) → ExperimentTrial F → List String
  event_alignment none event_edge trial = []
  event_alignment (some id) event_edge trial =
      flag_if (not (is_text trial.event_edge_evaluation_id id))
        "experiment_trial_event_edge_evaluation_mismatch"
      ++ symbol_alignment (λ e. e.symbol) "event_edge_symbol_mismatch" event_edge trial

  abbrev pub trial_alignment : GateRequest → Gathered F → ExperimentTrial F → List String
  trial_alignment r g trial =
      symbol_alignment (λ c. c.symbol) "cost_model_symbol_mismatch" g.cost_model trial
      ++ (symbol_alignment (λ b. b.symbol) "baseline_symbol_mismatch" g.baseline trial
          ++ (backtest_alignment r.backtest_result_id g.backtest trial
              ++ (walk_alignment r.walk_forward_validation_id g.walk_forward g.backtest trial
                  ++ event_alignment r.event_edge_evaluation_id g.event_edge trial)))

  unfoldable pub alignment_flags : GateRequest → Gathered F → List String
  alignment_flags r g = elim g.trial [
    | none ↦ split_alignment r.strategy_card_id g.split none
    | some trial ↦
        card_alignment g.card trial
        ++ (split_alignment r.strategy_card_id g.split (some trial) ++ trial_alignment r g trial)
  ]

module _ {F : Type 0} (rt : Runtime F) where
  abbrev pub edge_flags : Option F → List String
  edge_flags none = "baseline_edge_missing" ∷ []
  edge_flags (some edge) = flag_if (rt.le edge (zero_point rt)) "baseline_edge_not_positive"

  abbrev pub check_baseline : Option (BaselineEvaluation F) → List String
  check_baseline none = "baseline_missing" ∷ []
  check_baseline (some baseline) =
      flag_if (ltb baseline.sample_size 2) "baseline_sample_too_low"
      ++ (edge_flags baseline.model_edge
          ++ flag_if (contains ("D" ∷ "INSUFFICIENT" ∷ []) baseline.evidence_grade)
              "baseline_evidence_grade_too_weak")

  abbrev pub check_backtest : Option (BacktestResult F) → Option (CostModelSnapshot F) → List String
  check_backtest (some backtest) (some cost_model) =
      flag_if (rt.le backtest.strategy_return backtest.benchmark_return)
        "holdout_excess_not_positive"
      ++ (flag_if (rt.lt cost_model.max_drawdown backtest.max_drawdown) "drawdown_limit_exceeded"
          ++ flag_if (rt.lt cost_model.max_turnover backtest.turnover) "turnover_limit_exceeded")
  check_backtest _ _ = []

  abbrev pub check_walk_forward : Option (WalkForwardValidation F) → List String
  check_walk_forward none = []
  check_walk_forward (some walk_forward) =
      flag_if (rt.le walk_forward.average_excess_return (zero_point rt))
        "walk_forward_excess_not_positive"
      ++ flag_if (not (is_empty walk_forward.overfit_risk_flags)) "overfit_risk_flagged"

  unfoldable pub blocked_reasons : GateRequest → Gathered F → List String
  blocked_reasons r g =
      card_flags g.card
      ++ (trial_flags r.strategy_card_id g.trial
          ++ (split_flags g.split
              ++ (cost_flags g.cost_model
                  ++ (check_baseline g.baseline
                      ++ (flag_if (is_none g.backtest) "backtest_result_missing"
                          ++ (flag_if (is_none g.walk_forward) "walk_forward_validation_missing"
                              ++ (event_flags r.event_edge_evaluation_id g.event_edge
                                  ++ (alignment_flags r g
                                      ++ (check_backtest g.backtest g.cost_model
                                          ++ check_walk_forward g.walk_forward)))))))))
