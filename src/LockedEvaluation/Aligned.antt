-- ===== src/LockedEvaluation/Aligned.antt =====
-- What the gathered artifacts of an unblocked evaluation have in common (locked_evaluation.py).
use paper_forecast_loop.Prelude.{
  ◌≡◌, refl, true, false, not, Option, none, some, ◌==◌, is_empty, sym, arith,
}
use mathlib.Core.Bool.{false≢true}
use paper_forecast_loop.Prelude.Text.{contains, is_text}
use paper_forecast_loop.Runtime.{Runtime, zero_point}
use paper_forecast_loop.Models.Research.{
  BaselineEvaluation, BacktestResult, WalkForwardValidation, EventEdgeEvaluation,
}
use paper_forecast_loop.Models.Evaluation.{
  StrategyCard, ExperimentTrial, SplitManifest, CostModelSnapshot,
}
use paper_forecast_loop.ResearchGates.{flag_if}
use paper_forecast_loop.LockedEvaluation.Gate.{
  GateRequest, Gathered, check_backtest, split_alignment, dataset_alignment, card_alignment,
  backtest_alignment, walk_alignment, alignment_flags,
}
use paper_forecast_loop.LockedEvaluation.Clear.{
  is_empty-both, flag_if-empty, flag_not, IsRankable, IsClear, trial_of_card, baseline_passes,
}

module _ {F : Type 0} (rt : Runtime F) where
  module _ (r : GateRequest) (card : StrategyCard F) (trial : ExperimentTrial F)
      (split : SplitManifest) (cost_model : CostModelSnapshot F) (baseline : BaselineEvaluation F)
      (backtest : BacktestResult F) (walk_forward : WalkForwardValidation F)
      (event_edge : Option (EventEdgeEvaluation F)) where
    abbrev full : Gathered F
    full = record {
      card = some card;
      trial = some trial;
      split = some split;
      cost_model = some cost_model;
      baseline = some baseline;
      backtest = some backtest;
      walk_forward = some walk_forward;
      event_edge = event_edge;
    }

    split_aligned :
        is_empty (split_alignment r.strategy_card_id (some split) (some trial)) ≡ true
        → ((split.strategy_card_id == r.strategy_card_id) ≡ true)
          × ((split.symbol == trial.symbol) ≡ true)
    split_aligned h =
        let (own, rest) =
          is_empty-both
            (flag_if (not (split.strategy_card_id == r.strategy_card_id))
              "split_manifest_strategy_card_mismatch")
            _ h in
        let (_, same) = is_empty-both (dataset_alignment split trial.dataset_id) _ rest in
        (ground arith, ground arith)

    backtest_aligned :
        is_empty (backtest_alignment r.backtest_result_id (some backtest) trial) ≡ true
        → (is_text trial.backtest_result_id r.backtest_result_id ≡ true)
          × ((backtest.symbol == trial.symbol) ≡ true)
    backtest_aligned h =
        let (own, same) =
          is_empty-both
            (flag_if (not (is_text trial.backtest_result_id r.backtest_result_id))
              "experiment_trial_backtest_result_mismatch")
            _ h in
        (flag_not _ _ own, flag_not _ _ same)

    walk_aligned :
        is_empty
            (walk_alignment r.walk_forward_validation_id (some walk_forward) (some backtest) trial)
          ≡ true
        → (is_text trial.walk_forward_validation_id r.walk_forward_validation_id ≡ true)
          × ((walk_forward.symbol == trial.symbol) ≡ true)
          × (contains walk_forward.backtest_result_ids backtest.result_id ≡ true)
    walk_aligned h =
        let (own, rest) =
          is_empty-both
            (flag_if (not (is_text trial.walk_forward_validation_id r.walk_forward_validation_id))
              "experiment_trial_walk_forward_validation_mismatch")
            _ h in
        let (same, held) =
          is_empty-both
            (flag_if (not (walk_forward.symbol == trial.symbol)) "walk_forward_symbol_mismatch") _
            rest in
        (flag_not _ _ own, flag_not _ _ same, flag_not _ _ held)

    backtest_passes :
        is_empty (check_backtest rt (some backtest) (some cost_model)) ≡ true
        → (rt.le backtest.strategy_return backtest.benchmark_return ≡ false)
          × (rt.lt cost_model.max_drawdown backtest.max_drawdown ≡ false)
          × (rt.lt cost_model.max_turnover backtest.turnover ≡ false)
    backtest_passes h = ground arith

    clear-IsRankable :
        IsClear rt r full
        → IsRankable rt r card trial split cost_model baseline backtest walk_forward
    unfolding alignment_flags
    clear-IsRankable c =
        let (of_card, passed) = trial_of_card rt r.strategy_card_id trial c.trial_clear in
        let (sampled, edged, graded) = baseline_passes rt baseline c.baseline_clear in
        let (in_card, a1) = is_empty-both (card_alignment (some card) trial) _ c.alignment_clear in
        let (splits, a2) =
          is_empty-both (split_alignment r.strategy_card_id (some split) (some trial)) _ a1 in
        let (own_split, split_symbol) = split_aligned splits in
        let (costs, a3) =
          is_empty-both
            (flag_if (not (cost_model.symbol == trial.symbol)) "cost_model_symbol_mismatch") _ a2 in
        let (bases, a4) =
          is_empty-both (flag_if (not (baseline.symbol == trial.symbol)) "baseline_symbol_mismatch")
            _ a3 in
        let (tests, a5) =
          is_empty-both (backtest_alignment r.backtest_result_id (some backtest) trial) _ a4 in
        let (walks, a6) =
          is_empty-both
            (walk_alignment r.walk_forward_validation_id (some walk_forward) (some backtest) trial)
            _ a5 in
        let (own_backtest, backtest_symbol) = backtest_aligned tests in
        let (own_walk, walk_symbol, walked) = walk_aligned walks in
        let (beats, drawdown, turnover) = backtest_passes c.backtest_clear in
        let (excess, fit) =
          is_empty-both
            (flag_if (rt.le walk_forward.average_excess_return (zero_point rt))
              "walk_forward_excess_not_positive")
            _ c.walk_forward_clear in
        record {
          own_trial = of_card;
          trial_passed = passed;
          split_locked = flag_not _ _ c.split_clear;
          own_split = own_split;
          cost_locked = flag_not _ _ c.cost_clear;
          sampled = sampled;
          edged = edged;
          graded = graded;
          beats_benchmark = beats;
          drawdown_kept = drawdown;
          turnover_kept = turnover;
          excess = flag_if-empty _ _ excess;
          not_overfit = flag_not _ _ fit;
          card_lists_symbol = flag_not _ _ in_card;
          one_symbol =
              (split_symbol, flag_not _ _ costs, flag_not _ _ bases, backtest_symbol, walk_symbol);
          trial_backtest = own_backtest;
          trial_walk_forward = own_walk;
          walked_backtest = walked;
        }

  -- The artifacts that stand behind a rankable entry.
  abbrev pub Backed : GateRequest → Gathered F → Type 0
  Backed r g =
      (card : StrategyCard F) × (trial : ExperimentTrial F) × (split : SplitManifest)
      × (cost_model : CostModelSnapshot F) × (baseline : BaselineEvaluation F)
      × (backtest : BacktestResult F) × (walk_forward : WalkForwardValidation F) × (g.card
          ≡ some card)
      × (g.trial ≡ some trial)
      × (g.split ≡ some split)
      × (g.cost_model ≡ some cost_model)
      × (g.baseline ≡ some baseline)
      × (g.backtest ≡ some backtest)
      × (g.walk_forward ≡ some walk_forward)
      × IsRankable rt r card trial split cost_model baseline backtest walk_forward

  pub clear-Backed : (r : GateRequest) (g : Gathered F) → IsClear rt r g → Backed r g
  clear-Backed r g c =
      by_options g.card g.trial g.split g.cost_model g.baseline g.backtest g.walk_forward c
    where
      by_options :
          (card : Option (StrategyCard F)) (trial : Option (ExperimentTrial F))
          (split : Option SplitManifest) (cost_model : Option (CostModelSnapshot F))
          (baseline : Option (BaselineEvaluation F)) (backtest : Option (BacktestResult F))
          (walk_forward : Option (WalkForwardValidation F))
          → IsClear rt r (record {
            card = card;
            trial = trial;
            split = split;
            cost_model = cost_model;
            baseline = baseline;
            backtest = backtest;
            walk_forward = walk_forward;
            event_edge = g.event_edge;
          })
          → Backed r (record {
            card = card;
            trial = trial;
            split = split;
            cost_model = cost_model;
            baseline = baseline;
            backtest = backtest;
            walk_forward = walk_forward;
            event_edge = g.event_edge;
          })
      by_options none t s k b bt w c = absurd (false≢true c.card_clear)
      by_options (some a) none s k b bt w c = absurd (false≢true c.trial_clear)
      by_options (some a) (some t) none k b bt w c = absurd (false≢true c.split_clear)
      by_options (some a) (some t) (some s) none b bt w c = absurd (false≢true c.cost_clear)
      by_options (some a) (some t) (some s) (some k) none bt w c =
          absurd (false≢true c.baseline_clear)
      by_options (some a) (some t) (some s) (some k) (some b) none w c =
          absurd (false≢true (sym c.backtest_there))
      by_options (some a) (some t) (some s) (some k) (some b) (some bt) none c =
          absurd (false≢true (sym c.walk_forward_there))
      by_options (some a) (some t) (some s) (some k) (some b) (some bt) (some w) c = (
        a,
        t,
        s,
        k,
        b,
        bt,
        w,
        refl,
        refl,
        refl,
        refl,
        refl,
        refl,
        refl,
        clear-IsRankable r a t s k b bt w g.event_edge c,
      )
