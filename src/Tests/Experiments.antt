-- ===== src/Tests/Experiments.antt =====
-- Trials and their budget.
use paper_forecast_loop.Prelude.{
  ℕ, ◌-◌, ◌≤◌, ◌≡◌, refl, inl, String, none, some, [], ◌∷◌, length, arith,
}
use paper_forecast_loop.Prelude.Text.{upper}
use paper_forecast_loop.Runtime.Fixed.{Fixed, fixed_runtime}
use paper_forecast_loop.Models.Evaluation.Ids.{build_trial_id}
use paper_forecast_loop.Storage.{ArtifactRepository, empty_repository}
use paper_forecast_loop.Storage.Unique.{append_unique}
use paper_forecast_loop.Experiments.{
  TrialRequest, consume, consume_all, consumed_trial_indexes, trial_for, budget_for,
  record_experiment_trial,
}
use paper_forecast_loop.Experiments.Budget.{
  record_trial-keeps_budget, exhausted_trial_aborts, snapshot_recounts,
}

abbrev trial : ℕ → String → TrialRequest Fixed
trial index status = record {
  created_at = 100;
  strategy_card_id = "strategy-card:1";
  trial_index = index;
  status = status;
  symbol = "BTC-USD";
  max_trials = 2;
  seed = some 7;
  dataset_id = none;
  backtest_result_id = none;
  walk_forward_validation_id = none;
  event_edge_evaluation_id = none;
  prompt_hash = none;
  code_hash = none;
  parameters = [];
  metric_summary = [];
  failure_reason = none;
  started_at = none;
  completed_at = none;
}

-- two trials passed, as many as the budget has
abbrev trial_desk : ArtifactRepository Fixed
trial_desk = record empty_repository {
  experiment_trials =
      trial_for fixed_runtime [] (trial 1 "PASSED")
      ∷ trial_for fixed_runtime (1 ∷ []) (trial 2 "passed")
      ∷ [];
}

abbrev open_desk : ArtifactRepository Fixed
open_desk = record empty_repository {
  experiment_trials = trial_for fixed_runtime [] (trial 1 "PASSED") ∷ [];
}

record_trial-keeps_budget_example :
    length (
      consumed_trial_indexes
        (record_experiment_trial fixed_runtime trial_desk (trial 3 "failed")).1.experiment_trials
        "strategy-card:1")
    ≤ 2
unfolding trial_for consume consume_all upper
record_trial-keeps_budget_example =
    record_trial-keeps_budget fixed_runtime trial_desk (trial 3 "failed") (inl refl) (omega arith)

exhausted_trial_aborts_example :
    let (recorded, after) = record_experiment_trial fixed_runtime trial_desk (trial 3 "failed") in
    (recorded.status ≡ "ABORTED")
    × (recorded.failure_reason ≡ some "trial_budget_exhausted")
    × (consumed_trial_indexes after.experiment_trials "strategy-card:1"
        ≡ consumed_trial_indexes trial_desk.experiment_trials "strategy-card:1")
unfolding trial_for consume consume_all upper
exhausted_trial_aborts_example =
    exhausted_trial_aborts fixed_runtime trial_desk (trial 3 "failed") refl refl (omega arith)

snapshot_recounts_example :
    let budget =
      budget_for fixed_runtime
        (consumed_trial_indexes open_desk.experiment_trials "strategy-card:1")
        (trial 2 "failed") in
    let after = (record_experiment_trial fixed_runtime open_desk (trial 2 "failed")).1 in
    let consumed = consumed_trial_indexes after.experiment_trials "strategy-card:1" in
    (after.experiment_budgets ≡ append_unique (λ b. b.budget_id) [] budget)
    × (budget.used_trials ≡ length consumed)
    × (budget.remaining_trials ≡ 2 - length consumed)
unfolding trial_for consume consume_all upper build_trial_id
snapshot_recounts_example =
    snapshot_recounts fixed_runtime open_desk (trial 2 "failed") refl refl refl
