-- ===== src/Models/Evaluation/Ids.antt =====
-- models.py: the `build_id` of baselines, trials and locked evaluations.
use paper_forecast_loop.Prelude.{ℕ, String, Option, List, [], ◌∷◌}
use paper_forecast_loop.Prelude.Text.{sorted}
use paper_forecast_loop.Runtime.{
  Runtime, stable_artifact_id, text, integer, number, texts, object_of, text_or_null,
  number_or_null, integer_or_null, Dict,
}

module _ {F : Type 0} (rt : Runtime F) where
  unfoldable pub build_baseline_id : String → List String → Option F → Option F → Option F → String
  unfolding stable_artifact_id
  build_baseline_id symbol score_ids baseline_accuracy directional_accuracy recent_score =
      stable_artifact_id rt "baseline" (
        ("symbol", text symbol)
        ∷ ("score_ids", texts (sorted score_ids))
        ∷ ("baseline_accuracy", number_or_null baseline_accuracy)
        ∷ ("directional_accuracy", number_or_null directional_accuracy)
        ∷ ("recent_score", number_or_null recent_score)
        ∷ [])

  unfoldable pub build_card_id : String → String → String → List String → String → Dict F → String
  unfolding stable_artifact_id
  build_card_id strategy_name strategy_family version symbols hypothesis parameters =
      stable_artifact_id rt "strategy-card" (
        ("strategy_name", text strategy_name)
        ∷ ("strategy_family", text strategy_family)
        ∷ ("version", text version)
        ∷ ("symbols", texts (sorted symbols))
        ∷ ("hypothesis", text hypothesis)
        ∷ ("parameters", object_of parameters)
        ∷ [])

  unfoldable pub build_budget_id : String → ℕ → ℕ → ℕ → String → String
  unfolding stable_artifact_id
  build_budget_id strategy_card_id max_trials used_trials remaining_trials status =
      stable_artifact_id rt "experiment-budget" (
        ("strategy_card_id", text strategy_card_id)
        ∷ ("max_trials", integer max_trials)
        ∷ ("used_trials", integer used_trials)
        ∷ ("remaining_trials", integer remaining_trials)
        ∷ ("status", text status)
        ∷ [])

  unfoldable pub build_trial_id :
      String → ℕ → String → Option ℕ → Option String → Option String → Dict F → String
  unfolding stable_artifact_id
  build_trial_id strategy_card_id trial_index status seed prompt_hash code_hash parameters =
      stable_artifact_id rt "experiment-trial" (
        ("strategy_card_id", text strategy_card_id)
        ∷ ("trial_index", integer trial_index)
        ∷ ("status", text status)
        ∷ ("seed", integer_or_null seed)
        ∷ ("prompt_hash", text_or_null prompt_hash)
        ∷ ("code_hash", text_or_null code_hash)
        ∷ ("parameters", object_of parameters)
        ∷ [])

  unfoldable pub build_manifest_id : String → String → String → ℕ → ℕ → ℕ → ℕ → ℕ → ℕ → ℕ → String
  unfolding stable_artifact_id
  build_manifest_id symbol strategy_card_id dataset_id train_start train_end validation_start
        validation_end holdout_start holdout_end embargo_hours =
      stable_artifact_id rt "split-manifest" (
        ("symbol", text symbol)
        ∷ ("strategy_card_id", text strategy_card_id)
        ∷ ("dataset_id", text dataset_id)
        ∷ ("train_start", text (rt.isoformat train_start))
        ∷ ("train_end", text (rt.isoformat train_end))
        ∷ ("validation_start", text (rt.isoformat validation_start))
        ∷ ("validation_end", text (rt.isoformat validation_end))
        ∷ ("holdout_start", text (rt.isoformat holdout_start))
        ∷ ("holdout_end", text (rt.isoformat holdout_end))
        ∷ ("embargo_hours", integer embargo_hours)
        ∷ [])

  unfoldable pub build_cost_model_id : String → F → F → F → F → String → String
  unfolding stable_artifact_id
  build_cost_model_id symbol fee_bps slippage_bps max_turnover max_drawdown baseline_suite_version =
      stable_artifact_id rt "cost-model" (
        ("symbol", text symbol)
        ∷ ("fee_bps", number (rt.round fee_bps 8))
        ∷ ("slippage_bps", number (rt.round slippage_bps 8))
        ∷ ("max_turnover", number (rt.round max_turnover 8))
        ∷ ("max_drawdown", number (rt.round max_drawdown 8))
        ∷ ("baseline_suite_version", text baseline_suite_version)
        ∷ [])

  unfoldable pub build_locked_evaluation_id :
      String → String → String → String → String → String → String → Option String → String
  unfolding stable_artifact_id
  build_locked_evaluation_id strategy_card_id trial_id split_manifest_id cost_model_id baseline_id
        backtest_result_id walk_forward_validation_id event_edge_evaluation_id =
      stable_artifact_id rt "locked-evaluation" (
        ("strategy_card_id", text strategy_card_id)
        ∷ ("trial_id", text trial_id)
        ∷ ("split_manifest_id", text split_manifest_id)
        ∷ ("cost_model_id", text cost_model_id)
        ∷ ("baseline_id", text baseline_id)
        ∷ ("backtest_result_id", text backtest_result_id)
        ∷ ("walk_forward_validation_id", text walk_forward_validation_id)
        ∷ ("event_edge_evaluation_id", text_or_null event_edge_evaluation_id)
        ∷ [])

  unfoldable pub build_leaderboard_entry_id : String → String → String → String → String
  unfolding stable_artifact_id
  build_leaderboard_entry_id strategy_card_id evaluation_id trial_id leaderboard_rules_version =
      stable_artifact_id rt "leaderboard-entry" (
        ("strategy_card_id", text strategy_card_id)
        ∷ ("evaluation_id", text evaluation_id)
        ∷ ("trial_id", text trial_id)
        ∷ ("leaderboard_rules_version", text leaderboard_rules_version)
        ∷ [])

  unfoldable pub build_shadow_outcome_id : String → ℕ → ℕ → Option F → Option F → String
  unfolding stable_artifact_id
  build_shadow_outcome_id leaderboard_entry_id window_start window_end observed_return
        benchmark_return =
      stable_artifact_id rt "paper-shadow-outcome" (
        ("leaderboard_entry_id", text leaderboard_entry_id)
        ∷ ("window_start", text (rt.isoformat window_start))
        ∷ ("window_end", text (rt.isoformat window_end))
        ∷ ("observed_return", number_or_null observed_return)
        ∷ ("benchmark_return", number_or_null benchmark_return)
        ∷ [])
