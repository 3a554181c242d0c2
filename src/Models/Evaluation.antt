-- ===== src/Models/Evaluation.antt =====
-- models.py: strategy cards, trials, budgets, locked protocols and their outcomes.
pub mod Ids
use paper_forecast_loop.Prelude.{ℕ, String, Bool, Option, List}
use paper_forecast_loop.Runtime.{Dict}

pub record StrategyCard (F : Type 0) : Type 0 where
  pub card_id : String
  pub created_at : ℕ
  pub strategy_name : String
  pub strategy_family : String
  pub version : String
  pub status : String
  pub symbols : List String
  pub hypothesis : String
  pub signal_description : String
  pub entry_rules : List String
  pub exit_rules : List String
  pub risk_rules : List String
  pub parameters : Dict F
  pub data_requirements : List String
  pub feature_snapshot_ids : List String
  pub backtest_result_ids : List String
  pub walk_forward_validation_ids : List String
  pub event_edge_evaluation_ids : List String
  pub parent_card_id : Option String
  pub author : String
  pub decision_basis : String

pub record ExperimentBudget : Type 0 where
  pub budget_id : String
  pub created_at : ℕ
  pub strategy_card_id : String
  pub max_trials : ℕ
  pub used_trials : ℕ
  pub remaining_trials : ℕ
  pub status : String
  pub budget_scope : String
  pub decision_basis : String

pub record ExperimentTrial (F : Type 0) : Type 0 where
  pub trial_id : String
  pub created_at : ℕ
  pub strategy_card_id : String
  pub trial_index : ℕ
  pub status : String
  pub symbol : String
  pub seed : Option ℕ
  pub dataset_id : Option String
  pub backtest_result_id : Option String
  pub walk_forward_validation_id : Option String
  pub event_edge_evaluation_id : Option String
  pub prompt_hash : Option String
  pub code_hash : Option String
  pub parameters : Dict F
  pub metric_summary : Dict F
  pub failure_reason : Option String
  pub started_at : Option ℕ
  pub completed_at : Option ℕ
  pub decision_basis : String

pub record SplitManifest : Type 0 where
  pub manifest_id : String
  pub created_at : ℕ
  pub symbol : String
  pub strategy_card_id : String
  pub dataset_id : String
  pub train_start : ℕ
  pub train_end : ℕ
  pub validation_start : ℕ
  pub validation_end : ℕ
  pub holdout_start : ℕ
  pub holdout_end : ℕ
  pub embargo_hours : ℕ
  pub status : String
  pub locked_by : String
  pub decision_basis : String

pub record CostModelSnapshot (F : Type 0) : Type 0 where
  pub cost_model_id : String
  pub created_at : ℕ
  pub symbol : String
  pub fee_bps : F
  pub slippage_bps : F
  pub max_turnover : F
  pub max_drawdown : F
  pub baseline_suite_version : String
  pub status : String
  pub decision_basis : String

pub record LockedEvaluationResult (F : Type 0) : Type 0 where
  pub evaluation_id : String
  pub created_at : ℕ
  pub strategy_card_id : String
  pub trial_id : String
  pub split_manifest_id : String
  pub cost_model_id : String
  pub baseline_id : String
  pub backtest_result_id : String
  pub walk_forward_validation_id : String
  pub event_edge_evaluation_id : Option String
  pub passed : Bool
  pub rankable : Bool
  pub alpha_score : Option F
  pub blocked_reasons : List String
  pub gate_metrics : Dict F
  pub decision_basis : String

pub record LeaderboardEntry (F : Type 0) : Type 0 where
  pub entry_id : String
  pub created_at : ℕ
  pub strategy_card_id : String
  pub evaluation_id : String
  pub trial_id : String
  pub symbol : String
  pub rankable : Bool
  pub alpha_score : Option F
  pub promotion_stage : String
  pub blocked_reasons : List String
  pub leaderboard_rules_version : String
  pub decision_basis : String

pub record PaperShadowOutcome (F : Type 0) : Type 0 where
  pub outcome_id : String
  pub created_at : ℕ
  pub leaderboard_entry_id : String
  pub evaluation_id : String
  pub strategy_card_id : String
  pub trial_id : String
  pub symbol : String
  pub window_start : ℕ
  pub window_end : ℕ
  pub observed_return : Option F
  pub benchmark_return : Option F
  pub excess_return_after_costs : Option F
  pub max_adverse_excursion : Option F
  pub turnover : Option F
  pub outcome_grade : String
  pub failure_attributions : List String
  pub recommended_promotion_stage : String
  pub recommended_strategy_action : String
  pub blocked_reasons : List String
  pub notes : List String
  pub decision_basis : String
