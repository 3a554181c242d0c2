-- ===== src/LockedEvaluation/Clear.antt =====
-- What holds of the gathered artifacts when no reason blocks an evaluation (locked_evaluation.py).
use paper_forecast_loop.Prelude.{
  ◌≤◌, String, ◌≡◌, refl, Bool, true, false, not, Option, none, some, List, [], ◌∷◌, ◌++◌, ◌==◌,
  is_empty, is_none, ltb, arith,
}
use paper_forecast_loop.Prelude.Text.{contains, is_text}
use paper_forecast_loop.Runtime.{Runtime, zero_point}
use paper_forecast_loop.Models.Research.{BaselineEvaluation, BacktestResult, WalkForwardValidation}
use paper_forecast_loop.Models.Evaluation.{
  StrategyCard, ExperimentTrial, SplitManifest, CostModelSnapshot,
}
use paper_forecast_loop.ResearchGates.{flag_if}
use paper_forecast_loop.ResearchGates.Allowed.{Beats}
use paper_forecast_loop.LockedEvaluation.Gate.{
  GateRequest, Gathered, card_flags, trial_flags, split_flags, cost_flags, event_flags, edge_flags,
  check_baseline, check_backtest, check_walk_forward, alignment_flags, blocked_reasons,
}

pub is_empty-both :
    (xs ys : List String) → is_empty (xs ++ ys) ≡ true → (is_empty xs ≡ true) × (is_empty ys ≡ true)
is_empty-both [] ys h = (refl, h)
is_empty-both (x ∷ xs) ys h = cc

pub flag_if-empty : (b : Bool) (flag : String) → is_empty (flag_if b flag) ≡ true → b ≡ false
flag_if-empty true flag h = cc
flag_if-empty false flag h = refl

pub flag_not : (b : Bool) (flag : String) → is_empty (flag_if (not b) flag) ≡ true → b ≡ true
flag_not true flag h = refl
flag_not false flag h = cc

module _ {F : Type 0} (rt : Runtime F) where
  pub record IsRankable (r : GateRequest) (card : StrategyCard F) (trial : ExperimentTrial F)
      (split : SplitManifest) (cost_model : CostModelSnapshot F) (baseline : BaselineEvaluation F)
      (backtest : BacktestResult F) (walk_forward : WalkForwardValidation F) : Type 0 where
    pub own_trial : (trial.strategy_card_id == r.strategy_card_id) ≡ true
    pub trial_passed : (trial.status == "PASSED") ≡ true
    pub split_locked : (split.status == "LOCKED") ≡ true
    pub own_split : (split.strategy_card_id == r.strategy_card_id) ≡ true
    pub cost_locked : (cost_model.status == "LOCKED") ≡ true
    pub sampled : 2 ≤ baseline.sample_size
    pub edged : Beats rt baseline.model_edge (zero_point rt)
    pub graded : contains ("D" ∷ "INSUFFICIENT" ∷ []) baseline.evidence_grade ≡ false
    pub beats_benchmark : rt.le backtest.strategy_return backtest.benchmark_return ≡ false
    pub drawdown_kept : rt.lt cost_model.max_drawdown backtest.max_drawdown ≡ false
    pub turnover_kept : rt.lt cost_model.max_turnover backtest.turnover ≡ false
    pub excess : rt.le walk_forward.average_excess_return (zero_point rt) ≡ false
    pub not_overfit : is_empty walk_forward.overfit_risk_flags ≡ true
    pub card_lists_symbol : contains card.symbols trial.symbol ≡ true
    pub one_symbol :
        ((split.symbol == trial.symbol) ≡ true)
        × ((cost_model.symbol == trial.symbol) ≡ true)
        × ((baseline.symbol == trial.symbol) ≡ true)
        × ((backtest.symbol == trial.symbol) ≡ true)
        × ((walk_forward.symbol == trial.symbol) ≡ true)
    pub trial_backtest : is_text trial.backtest_result_id r.backtest_result_id ≡ true
    pub trial_walk_forward :
        is_text trial.walk_forward_validation_id r.walk_forward_validation_id ≡ true
    pub walked_backtest : contains walk_forward.backtest_result_ids backtest.result_id ≡ true

  -- no group of flags has one
  pub record IsClear (r : GateRequest) (g : Gathered F) : Type 0 where
    pub card_clear : is_empty (card_flags g.card) ≡ true
    pub trial_clear : is_empty (trial_flags r.strategy_card_id g.trial) ≡ true
    pub split_clear : is_empty (split_flags g.split) ≡ true
    pub cost_clear : is_empty (cost_flags g.cost_model) ≡ true
    pub baseline_clear : is_empty (check_baseline rt g.baseline) ≡ true
    pub backtest_there : is_none g.backtest ≡ false
    pub walk_forward_there : is_none g.walk_forward ≡ false
    pub event_clear : is_empty (event_flags r.event_edge_evaluation_id g.event_edge) ≡ true
    pub alignment_clear : is_empty (alignment_flags r g) ≡ true
    pub backtest_clear : is_empty (check_backtest rt g.backtest g.cost_model) ≡ true
    pub walk_forward_clear : is_empty (check_walk_forward rt g.walk_forward) ≡ true

  pub unblocked-IsClear :
      (r : GateRequest) (g : Gathered F) → is_empty (blocked_reasons rt r g) ≡ true → IsClear r g
  unfolding blocked_reasons
  unblocked-IsClear r g h =
      let (card, h1) = is_empty-both (card_flags g.card) _ h in
      let (trial, h2) = is_empty-both (trial_flags r.strategy_card_id g.trial) _ h1 in
      let (split, h3) = is_empty-both (split_flags g.split) _ h2 in
      let (cost, h4) = is_empty-both (cost_flags g.cost_model) _ h3 in
      let (baseline, h5) = is_empty-both (check_baseline rt g.baseline) _ h4 in
      let (backtest, h6) =
        is_empty-both (flag_if (is_none g.backtest) "backtest_result_missing") _ h5 in
      let (walk, h7) =
        is_empty-both (flag_if (is_none g.walk_forward) "walk_forward_validation_missing") _ h6 in
      let (event, h8) = is_empty-both (event_flags r.event_edge_evaluation_id g.event_edge) _ h7 in
      let (aligned, h9) = is_empty-both (alignment_flags r g) _ h8 in
      let (tested, walked) = is_empty-both (check_backtest rt g.backtest g.cost_model) _ h9 in
      record {
        card_clear = card;
        trial_clear = trial;
        split_clear = split;
        cost_clear = cost;
        baseline_clear = baseline;
        backtest_there = flag_if-empty (is_none g.backtest) "backtest_result_missing" backtest;
        walk_forward_there =
            flag_if-empty (is_none g.walk_forward) "walk_forward_validation_missing" walk;
        event_clear = event;
        alignment_clear = aligned;
        backtest_clear = tested;
        walk_forward_clear = walked;
      }

  pub trial_of_card :
      (id : String) (trial : ExperimentTrial F)
      → is_empty (trial_flags id (some trial)) ≡ true
      → ((trial.strategy_card_id == id) ≡ true) × ((trial.status == "PASSED") ≡ true)
  trial_of_card id trial h = ground arith

  pub baseline_passes :
      (b : BaselineEvaluation F)
      → is_empty (check_baseline rt (some b)) ≡ true
      → (2 ≤ b.sample_size)
        × Beats rt b.model_edge (zero_point rt)
        × (contains ("D" ∷ "INSUFFICIENT" ∷ []) b.evidence_grade ≡ false)
  baseline_passes b h = by_edge b.model_edge h
    where
      by_edge :
          (edge : Option F)
          → is_empty (
              flag_if (ltb b.sample_size 2) "baseline_sample_too_low"
              ++ (edge_flags rt edge
                  ++ flag_if
                      (contains ("D" ∷ "INSUFFICIENT" ∷ []) b.evidence_grade)
                      "baseline_evidence_grade_too_weak"))
            ≡ true
          → (2 ≤ b.sample_size)
            × Beats rt edge (zero_point rt)
            × (contains ("D" ∷ "INSUFFICIENT" ∷ []) b.evidence_grade ≡ false)
      by_edge none k = absurd (ground arith)
      by_edge (some x) k = ground arith
