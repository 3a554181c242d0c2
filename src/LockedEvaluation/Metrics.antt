-- ===== src/LockedEvaluation/Metrics.antt =====
-- The metrics of the gate and the score that ranks an entry (locked_evaluation.py).
use paper_forecast_loop.Prelude.{Option, none, some, List, [], ◌∷◌}
use paper_forecast_loop.Runtime.{Runtime, Dict, number_or_null}
use paper_forecast_loop.LockedEvaluation.Gate.{Gathered}

-- The four values of the dictionary `gate_metrics`.
pub record GateMetrics (F : Type 0) : Type 0 where
  pub model_edge : Option F
  pub holdout_excess_return : Option F
  pub walk_forward_excess_return : Option F
  pub event_edge_after_cost : Option F

module _ {F : Type 0} where
  abbrev pub metrics_dict : GateMetrics F → Dict F
  metrics_dict m =
      ("model_edge", number_or_null m.model_edge)
      ∷ ("holdout_excess_return", number_or_null m.holdout_excess_return)
      ∷ ("walk_forward_excess_return", number_or_null m.walk_forward_excess_return)
      ∷ ("event_edge_after_cost", number_or_null m.event_edge_after_cost)
      ∷ []

  -- the values that are numbers
  abbrev present : List (Option F) → List F
  present [] = []
  present (none ∷ xs) = present xs
  present (some x ∷ xs) = x ∷ present xs

module _ {F : Type 0} (rt : Runtime F) where
  unfoldable pub gate_metrics : Gathered F → GateMetrics F
  gate_metrics g = record {
    model_edge = elim g.baseline [ none ↦ none | some baseline ↦ baseline.model_edge ];
    holdout_excess_return = elim g.backtest [
      | none ↦ none
      | some backtest ↦ some (rt.sub backtest.strategy_return backtest.benchmark_return)
    ];
    walk_forward_excess_return = elim g.walk_forward [
      | none ↦ none
      | some walk_forward ↦ some walk_forward.average_excess_return
    ];
    event_edge_after_cost = elim g.event_edge [
      | none ↦ none
      | some edge ↦ edge.average_excess_return_after_costs
    ];
  }

  unfoldable pub alpha_score : GateMetrics F → F
  alpha_score m =
      rt.round
        (rt.sum (
          present (
            m.model_edge ∷ m.holdout_excess_return ∷ m.walk_forward_excess_return
            ∷ m.event_edge_after_cost ∷ [])))
        8
