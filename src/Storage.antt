-- ===== src/Storage.antt =====
-- storage.py: the artifact repository. Each JSONL file of `JsonFileRepository` is the list of the
-- artifacts on its lines, oldest first; the coding of an artifact as a line is left out.
pub mod Unique
use paper_forecast_loop.Prelude.{List, []}
use Unique.{append_unique}
use paper_forecast_loop.Models.Research.{
  Forecast, ForecastScore, Review, BaselineEvaluation, MarketCandleRecord, BacktestRun,
  BacktestResult, WalkForwardValidation, EventEdgeEvaluation,
}
use paper_forecast_loop.Models.Trading.{
  StrategyDecision, PaperControlEvent, PaperOrder, BrokerOrder, BrokerReconciliation,
  ExecutionSafetyGate,
}
use paper_forecast_loop.Models.Portfolio.{
  PaperPortfolioSnapshot, EquityCurvePoint, PaperFill, RiskSnapshot,
}
use paper_forecast_loop.Models.Evaluation.{
  StrategyCard, ExperimentTrial, ExperimentBudget, SplitManifest, CostModelSnapshot,
  LockedEvaluationResult, LeaderboardEntry, PaperShadowOutcome,
}

pub record ArtifactRepository (F : Type 0) : Type 0 where
  pub forecasts : List (Forecast F)
  pub scores : List (ForecastScore F)
  pub reviews : List (Review F)
  pub baseline_evaluations : List (BaselineEvaluation F)
  pub market_candles : List (MarketCandleRecord F)
  pub backtest_runs : List (BacktestRun F)
  pub backtest_results : List (BacktestResult F)
  pub walk_forward_validations : List (WalkForwardValidation F)
  pub event_edge_evaluations : List (EventEdgeEvaluation F)
  pub strategy_decisions : List (StrategyDecision F)
  pub control_events : List (PaperControlEvent F)
  pub paper_orders : List (PaperOrder F)
  pub broker_orders : List (BrokerOrder F)
  pub broker_reconciliations : List (BrokerReconciliation F)
  pub execution_safety_gates : List (ExecutionSafetyGate F)
  pub portfolio_snapshots : List (PaperPortfolioSnapshot F)
  pub equity_curve_points : List (EquityCurvePoint F)
  pub paper_fills : List (PaperFill F)
  pub risk_snapshots : List (RiskSnapshot F)
  pub strategy_cards : List (StrategyCard F)
  pub experiment_trials : List (ExperimentTrial F)
  pub experiment_budgets : List ExperimentBudget
  pub split_manifests : List SplitManifest
  pub cost_model_snapshots : List (CostModelSnapshot F)
  pub locked_evaluation_results : List (LockedEvaluationResult F)
  pub leaderboard_entries : List (LeaderboardEntry F)
  pub paper_shadow_outcomes : List (PaperShadowOutcome F)

-- A new directory.
abbrev pub empty_repository : {F : Type 0} → ArtifactRepository F
empty_repository = record {
  forecasts = [];
  scores = [];
  reviews = [];
  baseline_evaluations = [];
  market_candles = [];
  backtest_runs = [];
  backtest_results = [];
  walk_forward_validations = [];
  event_edge_evaluations = [];
  strategy_decisions = [];
  control_events = [];
  paper_orders = [];
  broker_orders = [];
  broker_reconciliations = [];
  execution_safety_gates = [];
  portfolio_snapshots = [];
  equity_curve_points = [];
  paper_fills = [];
  risk_snapshots = [];
  strategy_cards = [];
  experiment_trials = [];
  experiment_budgets = [];
  split_manifests = [];
  cost_model_snapshots = [];
  locked_evaluation_results = [];
  leaderboard_entries = [];
  paper_shadow_outcomes = [];
}

module _ {F : Type 0} where
  abbrev pub save_baseline_evaluation :
      BaselineEvaluation F → ArtifactRepository F → ArtifactRepository F
  save_baseline_evaluation x repository = record repository {
    baseline_evaluations = append_unique (λ y. y.baseline_id) repository.baseline_evaluations x;
  }

  abbrev pub save_market_candle : MarketCandleRecord F → ArtifactRepository F → ArtifactRepository F
  save_market_candle x repository = record repository {
    market_candles = append_unique (λ y. y.candle_id) repository.market_candles x;
  }

  abbrev pub save_backtest_run : BacktestRun F → ArtifactRepository F → ArtifactRepository F
  save_backtest_run x repository = record repository {
    backtest_runs = append_unique (λ y. y.backtest_id) repository.backtest_runs x;
  }

  abbrev pub save_backtest_result : BacktestResult F → ArtifactRepository F → ArtifactRepository F
  save_backtest_result x repository = record repository {
    backtest_results = append_unique (λ y. y.result_id) repository.backtest_results x;
  }

  abbrev pub save_walk_forward_validation :
      WalkForwardValidation F → ArtifactRepository F → ArtifactRepository F
  save_walk_forward_validation x repository = record repository {
    walk_forward_validations =
        append_unique (λ y. y.validation_id) repository.walk_forward_validations x;
  }

  abbrev pub save_strategy_decision :
      StrategyDecision F → ArtifactRepository F → ArtifactRepository F
  save_strategy_decision x repository = record repository {
    strategy_decisions = append_unique (λ y. y.decision_id) repository.strategy_decisions x;
  }

  abbrev pub save_control_event : PaperControlEvent F → ArtifactRepository F → ArtifactRepository F
  save_control_event x repository = record repository {
    control_events = append_unique (λ y. y.control_id) repository.control_events x;
  }

  abbrev pub save_paper_order : PaperOrder F → ArtifactRepository F → ArtifactRepository F
  save_paper_order x repository = record repository {
    paper_orders = append_unique (λ y. y.order_id) repository.paper_orders x;
  }

  abbrev pub save_broker_order : BrokerOrder F → ArtifactRepository F → ArtifactRepository F
  save_broker_order x repository = record repository {
    broker_orders = append_unique (λ y. y.broker_order_id) repository.broker_orders x;
  }

  abbrev pub save_broker_reconciliation :
      BrokerReconciliation F → ArtifactRepository F → ArtifactRepository F
  save_broker_reconciliation x repository = record repository {
    broker_reconciliations =
        append_unique (λ y. y.reconciliation_id) repository.broker_reconciliations x;
  }

  abbrev pub save_execution_safety_gate :
      ExecutionSafetyGate F → ArtifactRepository F → ArtifactRepository F
  save_execution_safety_gate x repository = record repository {
    execution_safety_gates = append_unique (λ y. y.gate_id) repository.execution_safety_gates x;
  }

  abbrev pub save_portfolio_snapshot :
      PaperPortfolioSnapshot F → ArtifactRepository F → ArtifactRepository F
  save_portfolio_snapshot x repository = record repository {
    portfolio_snapshots = append_unique (λ y. y.snapshot_id) repository.portfolio_snapshots x;
  }

  abbrev pub save_equity_curve_point :
      EquityCurvePoint F → ArtifactRepository F → ArtifactRepository F
  save_equity_curve_point x repository = record repository {
    equity_curve_points = append_unique (λ y. y.point_id) repository.equity_curve_points x;
  }

  abbrev pub save_paper_fill : PaperFill F → ArtifactRepository F → ArtifactRepository F
  save_paper_fill x repository = record repository {
    paper_fills = append_unique (λ y. y.fill_id) repository.paper_fills x;
  }

  abbrev pub save_risk_snapshot : RiskSnapshot F → ArtifactRepository F → ArtifactRepository F
  save_risk_snapshot x repository = record repository {
    risk_snapshots = append_unique (λ y. y.risk_id) repository.risk_snapshots x;
  }

  abbrev pub save_strategy_card : StrategyCard F → ArtifactRepository F → ArtifactRepository F
  save_strategy_card x repository = record repository {
    strategy_cards = append_unique (λ y. y.card_id) repository.strategy_cards x;
  }

  abbrev pub save_experiment_trial : ExperimentTrial F → ArtifactRepository F → ArtifactRepository F
  save_experiment_trial x repository = record repository {
    experiment_trials = append_unique (λ y. y.trial_id) repository.experiment_trials x;
  }

  abbrev pub save_experiment_budget : ExperimentBudget → ArtifactRepository F → ArtifactRepository F
  save_experiment_budget x repository = record repository {
    experiment_budgets = append_unique (λ y. y.budget_id) repository.experiment_budgets x;
  }

  abbrev pub save_split_manifest : SplitManifest → ArtifactRepository F → ArtifactRepository F
  save_split_manifest x repository = record repository {
    split_manifests = append_unique (λ y. y.manifest_id) repository.split_manifests x;
  }

  abbrev pub save_cost_model_snapshot :
      CostModelSnapshot F → ArtifactRepository F → ArtifactRepository F
  save_cost_model_snapshot x repository = record repository {
    cost_model_snapshots = append_unique (λ y. y.cost_model_id) repository.cost_model_snapshots x;
  }

  abbrev pub save_locked_evaluation_result :
      LockedEvaluationResult F → ArtifactRepository F → ArtifactRepository F
  save_locked_evaluation_result x repository = record repository {
    locked_evaluation_results =
        append_unique (λ y. y.evaluation_id) repository.locked_evaluation_results x;
  }

  abbrev pub save_leaderboard_entry :
      LeaderboardEntry F → ArtifactRepository F → ArtifactRepository F
  save_leaderboard_entry x repository = record repository {
    leaderboard_entries = append_unique (λ y. y.entry_id) repository.leaderboard_entries x;
  }

  abbrev pub save_paper_shadow_outcome :
      PaperShadowOutcome F → ArtifactRepository F → ArtifactRepository F
  save_paper_shadow_outcome x repository = record repository {
    paper_shadow_outcomes = append_unique (λ y. y.outcome_id) repository.paper_shadow_outcomes x;
  }

  abbrev pub replace_paper_orders :
      List (PaperOrder F) → ArtifactRepository F → ArtifactRepository F
  replace_paper_orders orders repository = record repository { paper_orders = orders }
