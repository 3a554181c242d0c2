-- ===== src/ResearchGates.antt =====
-- research_gates.py: the evidence that a BUY or a SELL needs.
pub mod Allowed
use paper_forecast_loop.Prelude.{
  ℕ, String, Bool, true, false, not, ◌&&◌, ◌||◌, Option, none, some, List, [], ◌∷◌, ◌++◌, ◌==◌,
  if◌then◌else◌, ltb, is_empty, first?, any, map,
}
use paper_forecast_loop.Prelude.Text.{contains, concat, join, sorted_set}
use paper_forecast_loop.Runtime.{Runtime, zero_point}
use paper_forecast_loop.Models.Research.{
  BaselineEvaluation, BacktestResult, WalkForwardValidation, EventEdgeEvaluation,
}

pub record ResearchGateResult : Type 0 where
  pub directional_allowed : Bool
  pub blocked_reason : Option String
  pub recommended_action : Option String
  pub risk_level : String
  pub flags : List String
  pub decision_basis : String

-- `if test: flags.append(flag)`
abbrev pub flag_if : Bool → String → List String
flag_if b s = if b then s ∷ [] else []

module _ {F : Type 0} (rt : Runtime F) where
  -- `x is None or x <= limit`
  abbrev pub missing_or_at_most : Option F → F → Bool
  missing_or_at_most none limit = true
  missing_or_at_most (some x) limit = rt.le x limit

  abbrev pub baseline_flags : BaselineEvaluation F → ℕ → F → List String
  baseline_flags baseline min_sample_size min_model_edge =
      flag_if (ltb baseline.sample_size min_sample_size) "research_sample_size_too_low"
      ++ flag_if (missing_or_at_most baseline.model_edge min_model_edge)
          "research_model_edge_not_positive"

  abbrev pub backtest_flags : Option (BacktestResult F) → F → List String
  backtest_flags none max_drawdown = "research_backtest_missing" ∷ []
  backtest_flags (some latest) max_drawdown =
      flag_if (rt.le latest.strategy_return latest.benchmark_return)
        "research_backtest_not_beating_benchmark"
      ++ flag_if (rt.lt max_drawdown latest.max_drawdown) "research_backtest_drawdown_too_high"

  abbrev pub walk_forward_flags : Option (WalkForwardValidation F) → List String
  walk_forward_flags none = "research_walk_forward_missing" ∷ []
  walk_forward_flags (some latest) =
      flag_if (rt.le latest.average_excess_return (zero_point rt))
        "research_walk_forward_excess_return_not_positive"
      ++ (flag_if (rt.le latest.average_test_return latest.average_benchmark_return)
            "research_walk_forward_not_beating_benchmark"
          ++ flag_if (not (is_empty latest.overfit_risk_flags))
              "research_walk_forward_overfit_risk")

  abbrev pub event_edge_flags : Option (EventEdgeEvaluation F) → List String
  event_edge_flags none = "research_event_edge_missing" ∷ []
  event_edge_flags (some latest) =
      flag_if (not latest.passed) "research_event_edge_not_passed"
      ++ flag_if (missing_or_at_most latest.average_excess_return_after_costs (zero_point rt))
          "research_event_edge_not_positive"

  -- `recent_score is not None and recent_score < 0.40`
  abbrev pub is_degraded : BaselineEvaluation F → Bool
  is_degraded baseline = elim baseline.recent_score [
    | none ↦ false
    | some x ↦ rt.lt x (rt.dec 40 2)
  ]

  abbrev pub show_option : Option F → String
  show_option none = "None"
  show_option (some x) = rt.show x

  abbrev show_field : {A : Type 0} → (A → F) → Option A → String
  show_field f none = "None"
  show_field f (some a) = rt.show (f a)

  abbrev id_or_missing : {A : Type 0} → (A → String) → Option A → String
  id_or_missing f none = "missing"
  id_or_missing f (some a) = f a

  abbrev show_edge :
      (EventEdgeEvaluation F → String) → String → Option (EventEdgeEvaluation F) → String
  show_edge f absent none = absent
  show_edge f absent (some e) = f e

  abbrev none_if_empty : String → String
  none_if_empty s = if s == "" then "none" else s

  -- `_decision_basis`
  unfoldable pub gate_decision_basis :
      BaselineEvaluation F
      → Option (BacktestResult F)
      → Option (WalkForwardValidation F)
      → Option (EventEdgeEvaluation F)
      → List String
      → String
  gate_decision_basis baseline latest_backtest latest_walk_forward latest_event_edge flags =
      concat (
        "research_gate=sample_size="
        ∷ rt.show_nat baseline.sample_size
        ∷ "; model_edge="
        ∷ show_option baseline.model_edge
        ∷ "; recent_score="
        ∷ show_option baseline.recent_score
        ∷ "; backtest_result="
        ∷ id_or_missing (λ b. b.result_id) latest_backtest
        ∷ "; backtest_strategy_return="
        ∷ show_field (λ b. b.strategy_return) latest_backtest
        ∷ "; backtest_benchmark_return="
        ∷ show_field (λ b. b.benchmark_return) latest_backtest
        ∷ "; backtest_max_drawdown="
        ∷ show_field (λ b. b.max_drawdown) latest_backtest
        ∷ "; walk_forward="
        ∷ id_or_missing (λ w. w.validation_id) latest_walk_forward
        ∷ "; walk_forward_average_excess_return="
        ∷ show_field (λ w. w.average_excess_return) latest_walk_forward
        ∷ "; walk_forward_average_test_return="
        ∷ show_field (λ w. w.average_test_return) latest_walk_forward
        ∷ "; walk_forward_average_benchmark_return="
        ∷ show_field (λ w. w.average_benchmark_return) latest_walk_forward
        ∷ "; event_edge="
        ∷ id_or_missing (λ e. e.evaluation_id) latest_event_edge
        ∷ "; event_edge_sample_n="
        ∷ show_edge (λ e. rt.show_nat e.sample_n) "None" latest_event_edge
        ∷ "; event_edge_average_excess_after_costs="
        ∷ show_edge (λ e. show_option e.average_excess_return_after_costs) "None" latest_event_edge
        ∷ "; event_edge_passed="
        ∷ show_edge (λ e. if e.passed then "True" else "False") "None" latest_event_edge
        ∷ "; event_edge_flags="
        ∷ show_edge (λ e. join "," e.flags) "missing" latest_event_edge
        ∷ "; flags="
        ∷ none_if_empty (join "," (sorted_set flags))
        ∷ [])

  -- the flags in the order in which they are appended
  unfoldable pub research_flags :
      BaselineEvaluation F
      → Option (BacktestResult F)
      → Option (WalkForwardValidation F)
      → Option (EventEdgeEvaluation F)
      → ℕ
      → F
      → F
      → List String
  research_flags baseline latest_backtest latest_walk_forward latest_event_edge min_sample_size
        min_model_edge max_drawdown =
      baseline_flags baseline min_sample_size min_model_edge
      ++ (backtest_flags latest_backtest max_drawdown
          ++ (walk_forward_flags latest_walk_forward
              ++ (event_edge_flags latest_event_edge
                  ++ flag_if (is_degraded baseline) "research_recent_degradation")))

  -- The recommendation is read off the flags before the one of recent degradation is appended;
  -- that flag has its own test.
  unfoldable pub evaluate_research_gates :
      BaselineEvaluation F
      → Option (BacktestResult F)
      → Option (WalkForwardValidation F)
      → Option (EventEdgeEvaluation F)
      → ℕ
      → F
      → F
      → ResearchGateResult
  evaluate_research_gates baseline latest_backtest latest_walk_forward latest_event_edge
        min_sample_size min_model_edge max_drawdown =
      let flags =
        research_flags baseline latest_backtest latest_walk_forward latest_event_edge
          min_sample_size min_model_edge max_drawdown in
      let reduces =
        contains flags "research_backtest_drawdown_too_high"
        || contains flags "research_walk_forward_overfit_risk"
        || is_degraded baseline in
      record {
        directional_allowed = is_empty flags;
        blocked_reason = first? flags;
        recommended_action = if reduces then some "REDUCE_RISK" else none;
        risk_level = if reduces then "HIGH" else "MEDIUM";
        flags = sorted_set flags;
        decision_basis =
            gate_decision_basis baseline latest_backtest latest_walk_forward latest_event_edge
              flags;
      }
