-- ===== src/Experiments.antt =====
-- experiment_registry.py: strategy cards, and trials that use up a budget for each card.
pub mod Budget
use paper_forecast_loop.Prelude.{
  ℕ, ◌+◌, ◌-◌, String, Bool, true, false, not, ◌&&◌, ◌||◌, Option, none, some, List, [], ◌∷◌, ◌++◌,
  ◌==◌, if◌then◌else◌, leb, eqb, any, find?, length,
}
use paper_forecast_loop.Prelude.Text.{upper, contains, is_text}
use paper_forecast_loop.Runtime.{Runtime, Dict}
use paper_forecast_loop.Models.Evaluation.{StrategyCard, ExperimentBudget, ExperimentTrial}
use paper_forecast_loop.Models.Evaluation.Ids.{build_card_id, build_budget_id, build_trial_id}
use paper_forecast_loop.Storage.{
  ArtifactRepository, save_strategy_card, save_experiment_trial, save_experiment_budget,
}

abbrev pub final_statuses : List String
final_statuses = "PASSED" ∷ "FAILED" ∷ "ABORTED" ∷ "INVALID" ∷ []

abbrev pub open_statuses : List String
open_statuses = "PENDING" ∷ "RUNNING" ∷ []

-- `i in indexes` and `indexes.add(i)` on a set of numbers
abbrev pub has_index : List ℕ → ℕ → Bool
has_index indexes i = any (λ j. eqb j i) indexes

abbrev pub add_index : List ℕ → ℕ → List ℕ
add_index indexes i = if has_index indexes i then indexes else indexes ++ i ∷ []

-- The arguments of `record_experiment_trial`; a dictionary that is not given is empty.
pub record TrialRequest (F : Type 0) : Type 0 where
  pub created_at : ℕ
  pub strategy_card_id : String
  pub trial_index : ℕ
  pub status : String
  pub symbol : String
  pub max_trials : ℕ
  pub seed : Option ℕ
  pub dataset_id : Option String
  pub backtest_result_id : Option String
  pub walk_forward_validation_id : Option String
  pub event_edge_evaluation_id : Option String
  pub prompt_hash : Option String
  pub code_hash : Option String
  pub parameters : Dict F
  pub metric_summary : Dict F
  pub failure_reason : Option String
  pub started_at : Option ℕ
  pub completed_at : Option ℕ

-- `t or created_at`
abbrev time_or : Option ℕ → ℕ → ℕ
time_or none created_at = created_at
time_or (some t) created_at = t

module _ {F : Type 0} where
  -- the tests of the loop's three `continue`s, negated
  abbrev pub consumes : String → ExperimentTrial F → Bool
  consumes strategy_card_id trial =
      trial.strategy_card_id == strategy_card_id
      && not (contains open_statuses trial.status)
      && not (trial.status == "ABORTED" && is_text trial.failure_reason "trial_budget_exhausted")

  unfoldable pub consume : String → List ℕ → ExperimentTrial F → List ℕ
  consume strategy_card_id indexes trial =
      if consumes strategy_card_id trial then add_index indexes trial.trial_index else indexes

  unfoldable pub consume_all : String → List ℕ → List (ExperimentTrial F) → List ℕ
  consume_all strategy_card_id indexes [] = indexes
  consume_all strategy_card_id indexes (trial ∷ trials) =
      consume_all strategy_card_id (consume strategy_card_id indexes trial) trials

  abbrev pub consumed_trial_indexes : List (ExperimentTrial F) → String → List ℕ
  consumed_trial_indexes trials strategy_card_id = consume_all strategy_card_id [] trials

  -- `consumes_budget` and `budget_exhausted`
  abbrev pub consumes_budget : List ℕ → TrialRequest F → Bool
  consumes_budget consumed r =
      contains final_statuses (upper r.status) && not (has_index consumed r.trial_index)

  abbrev pub budget_exhausted : List ℕ → TrialRequest F → Bool
  budget_exhausted consumed r = consumes_budget consumed r && leb r.max_trials (length consumed)

  abbrev pub used_after : List ℕ → TrialRequest F → ℕ
  used_after consumed r =
      if consumes_budget consumed r && not (budget_exhausted consumed r)
      then length consumed + 1
      else length consumed

module _ {F : Type 0} (rt : Runtime F) where
  unfoldable pub trial_for : List ℕ → TrialRequest F → ExperimentTrial F
  trial_for consumed r =
      let exhausted = budget_exhausted consumed r in
      let status = if exhausted then "ABORTED" else upper r.status in
      record {
        trial_id =
            build_trial_id rt r.strategy_card_id r.trial_index status r.seed r.prompt_hash
              r.code_hash r.parameters;
        created_at = r.created_at;
        strategy_card_id = r.strategy_card_id;
        trial_index = r.trial_index;
        status = status;
        symbol = r.symbol;
        seed = r.seed;
        dataset_id = r.dataset_id;
        backtest_result_id = r.backtest_result_id;
        walk_forward_validation_id = r.walk_forward_validation_id;
        event_edge_evaluation_id = r.event_edge_evaluation_id;
        prompt_hash = r.prompt_hash;
        code_hash = r.code_hash;
        parameters = r.parameters;
        metric_summary = r.metric_summary;
        failure_reason = if exhausted then some "trial_budget_exhausted" else r.failure_reason;
        started_at = some (time_or r.started_at r.created_at);
        completed_at = some (time_or r.completed_at r.created_at);
        decision_basis = "experiment_trial_recorded";
      }

  unfoldable pub budget_for : List ℕ → TrialRequest F → ExperimentBudget
  budget_for consumed r =
      let used_trials = used_after consumed r in
      let remaining_trials = r.max_trials - used_trials in
      let status = if eqb remaining_trials 0 then "EXHAUSTED" else "OPEN" in
      record {
        budget_id =
            build_budget_id rt r.strategy_card_id r.max_trials used_trials remaining_trials status;
        created_at = r.created_at;
        strategy_card_id = r.strategy_card_id;
        max_trials = r.max_trials;
        used_trials = used_trials;
        remaining_trials = remaining_trials;
        status = status;
        budget_scope = "strategy_card";
        decision_basis = "experiment_budget_snapshot";
      }

  unfoldable pub record_experiment_trial :
      ArtifactRepository F → TrialRequest F → ExperimentTrial F × ArtifactRepository F
  record_experiment_trial repository r =
      let consumed = consumed_trial_indexes repository.experiment_trials r.strategy_card_id in
      let trial = trial_for consumed r in
      (
        trial,
        save_experiment_budget (budget_for consumed r) (save_experiment_trial trial repository),
      )

  -- `card` holds the arguments of `register_strategy_card`; its id and basis are built here.
  unfoldable pub register_strategy_card :
      ArtifactRepository F → StrategyCard F → StrategyCard F × ArtifactRepository F
  register_strategy_card repository card =
      let card_id =
        build_card_id rt card.strategy_name card.strategy_family card.version card.symbols
          card.hypothesis card.parameters in
      elim (find? (λ existing. existing.card_id == card_id) repository.strategy_cards) [
        | some existing ↦ (existing, repository)
        | none ↦
            let new = record card {
              card_id = card_id;
              decision_basis = "strategy_card_registered";
            } in
            (new, save_strategy_card new repository)
      ]
