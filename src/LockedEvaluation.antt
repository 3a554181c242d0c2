-- ===== src/LockedEvaluation.antt =====
-- locked_evaluation.py: the locked protocol of an evaluation, and the hard gate of the leaderboard.
pub mod Gate
pub mod Metrics
pub mod Clear
pub mod Aligned
pub mod Rankable
use paper_forecast_loop.Prelude.{
  ℕ, String, Bool, true, false, not, ◌&&◌, Option, none, some, List, [], ◌∷◌, ◌++◌, ◌==◌,
  if◌then◌else◌, is_empty, last?, keep,
}
use paper_forecast_loop.Runtime.{Runtime, Dict}
use paper_forecast_loop.Models.Research.{
  BaselineEvaluation, BacktestResult, WalkForwardValidation, EventEdgeEvaluation,
}
use paper_forecast_loop.Models.Evaluation.{
  StrategyCard, ExperimentTrial, SplitManifest, CostModelSnapshot, LockedEvaluationResult,
  LeaderboardEntry,
}
use paper_forecast_loop.Models.Evaluation.Ids.{
  build_manifest_id, build_cost_model_id, build_locked_evaluation_id, build_leaderboard_entry_id,
}
use paper_forecast_loop.Storage.{
  ArtifactRepository, save_split_manifest, save_cost_model_snapshot, save_locked_evaluation_result,
  save_leaderboard_entry,
}
use Gate.{GateRequest, Gathered, is_given, blocked_reasons}
use Metrics.{gate_metrics, metrics_dict, alpha_score}

abbrev pub leaderboard_rules_version : String
leaderboard_rules_version = "pr7-v1"

-- `{id(x): x for x in xs}.get(key)`: the last one with the key
unfoldable pub by_id : {A : Type 0} → (A → String) → List A → String → Option A
by_id id xs key = last? (keep (λ x. id x == key) xs)

-- `_symbol`
abbrev pub symbol_of : {F : Type 0} → Gathered F → String
symbol_of g = elim g.trial [
  | some trial ↦ trial.symbol
  | none ↦ elim g.baseline [
    | some baseline ↦ baseline.symbol
    | none ↦ elim g.backtest [
      | some backtest ↦ backtest.symbol
      | none ↦ elim g.split [ some split ↦ split.symbol | none ↦ "UNKNOWN" ]
    ]
  ]
]

module _ {F : Type 0} where
  unfoldable pub gather : ArtifactRepository F → GateRequest → Gathered F
  gather repository r = record {
    card = by_id (λ x. x.card_id) repository.strategy_cards r.strategy_card_id;
    trial = by_id (λ x. x.trial_id) repository.experiment_trials r.trial_id;
    split = by_id (λ x. x.manifest_id) repository.split_manifests r.split_manifest_id;
    cost_model = by_id (λ x. x.cost_model_id) repository.cost_model_snapshots r.cost_model_id;
    baseline = by_id (λ x. x.baseline_id) repository.baseline_evaluations r.baseline_id;
    backtest = by_id (λ x. x.result_id) repository.backtest_results r.backtest_result_id;
    walk_forward =
        by_id (λ x. x.validation_id) repository.walk_forward_validations
          r.walk_forward_validation_id;
    event_edge = elim r.event_edge_evaluation_id [
      | none ↦ none
      | some id ↦
          if is_given (some id)
          then by_id (λ x. x.evaluation_id) repository.event_edge_evaluations id
          else none
    ];
  }

module _ {F : Type 0} (rt : Runtime F) where
  unfoldable pub evaluation_for : GateRequest → Gathered F → LockedEvaluationResult F
  evaluation_for r g =
      let blocked = blocked_reasons rt r g in
      let rankable = is_empty blocked in
      record {
        evaluation_id =
            build_locked_evaluation_id rt r.strategy_card_id r.trial_id r.split_manifest_id
              r.cost_model_id r.baseline_id r.backtest_result_id r.walk_forward_validation_id
              r.event_edge_evaluation_id;
        created_at = r.created_at;
        strategy_card_id = r.strategy_card_id;
        trial_id = r.trial_id;
        split_manifest_id = r.split_manifest_id;
        cost_model_id = r.cost_model_id;
        baseline_id = r.baseline_id;
        backtest_result_id = r.backtest_result_id;
        walk_forward_validation_id = r.walk_forward_validation_id;
        event_edge_evaluation_id = r.event_edge_evaluation_id;
        passed = rankable;
        rankable = rankable;
        alpha_score = if rankable then some (alpha_score rt (gate_metrics rt g)) else none;
        blocked_reasons = blocked;
        gate_metrics = metrics_dict (gate_metrics rt g);
        decision_basis = "locked_evaluation_gate";
      }

  unfoldable pub entry_for :
      GateRequest → Gathered F → LockedEvaluationResult F → LeaderboardEntry F
  entry_for r g evaluation = record {
    entry_id =
        build_leaderboard_entry_id rt r.strategy_card_id evaluation.evaluation_id r.trial_id
          leaderboard_rules_version;
    created_at = r.created_at;
    strategy_card_id = r.strategy_card_id;
    evaluation_id = evaluation.evaluation_id;
    trial_id = r.trial_id;
    symbol = symbol_of g;
    rankable = evaluation.rankable;
    alpha_score = evaluation.alpha_score;
    promotion_stage = if evaluation.rankable then "CANDIDATE" else "BLOCKED";
    blocked_reasons = evaluation.blocked_reasons;
    leaderboard_rules_version = leaderboard_rules_version;
    decision_basis = "leaderboard_hard_gate";
  }

  unfoldable pub evaluate_leaderboard_gate :
      ArtifactRepository F
      → GateRequest
      → LockedEvaluationResult F × LeaderboardEntry F × ArtifactRepository F
  evaluate_leaderboard_gate repository r =
      let g = gather repository r in
      let evaluation = evaluation_for r g in
      let entry = entry_for r g evaluation in
      (
        evaluation,
        entry,
        save_leaderboard_entry entry (save_locked_evaluation_result evaluation repository),
      )

  -- The arguments stand in the fields of a manifest and of a cost model; the ids, the statuses and
  -- the bases are written here.
  unfoldable pub lock_evaluation_protocol :
      ArtifactRepository F
      → SplitManifest
      → CostModelSnapshot F
      → SplitManifest × CostModelSnapshot F × ArtifactRepository F
  lock_evaluation_protocol repository m c =
      let manifest = record m {
        manifest_id =
            build_manifest_id rt m.symbol m.strategy_card_id m.dataset_id m.train_start m.train_end
              m.validation_start m.validation_end m.holdout_start m.holdout_end m.embargo_hours;
        status = "LOCKED";
        decision_basis = "locked_evaluation_protocol";
      } in
      let cost_model = record c {
        cost_model_id =
            build_cost_model_id rt c.symbol c.fee_bps c.slippage_bps c.max_turnover c.max_drawdown
              c.baseline_suite_version;
        status = "LOCKED";
        decision_basis = "locked_cost_model_snapshot";
      } in
      (
        manifest,
        cost_model,
        save_cost_model_snapshot cost_model (save_split_manifest manifest repository),
      )
