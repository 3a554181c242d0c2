-- ===== src/Tests/Decision.antt =====
-- Strategy decisions.
use paper_forecast_loop.Prelude.{
  ap, ◌≡◌, refl, ◌⊎◌, true, none, some, [], ◌∷◌, is_none, is_some, last?,
}
use paper_forecast_loop.Prelude.Text.{contains}
use paper_forecast_loop.Runtime.Fixed.{Fixed, fixed_runtime}
use paper_forecast_loop.Models.Trading.{HealthCheckResult}
use paper_forecast_loop.Models.Portfolio.Snapshots.{empty_portfolio}
use paper_forecast_loop.Storage.{
  save_baseline_evaluation, save_portfolio_snapshot, save_strategy_decision,
}
use paper_forecast_loop.Baselines.{
  build_baseline_evaluation, evidence_grade, naive_persistence_accuracy, average,
}
use paper_forecast_loop.ResearchGates.{research_flags, evaluate_research_gates}
use paper_forecast_loop.Decision.{evidence_verdict, regime_verdict, verdict}
use paper_forecast_loop.Decision.Generate.{
  DecisionRequest, baseline_for, generate_strategy_decision, decide, decision_of, evidence_for,
}
use paper_forecast_loop.Decision.Selection.{
  latest_risk_snapshot, latest_for_symbol, risk_blocked_reason, latest_backtest_for_research,
  latest_or_empty_portfolio,
}
use paper_forecast_loop.Decision.Effect.{
  IsJustified, generate-Effect, decision_tradeable_iff_unblocked, directional-IsJustified,
}
use paper_forecast_loop.Tests.Fixtures.{amount}
use paper_forecast_loop.Tests.Research.{research_desk}

abbrev pub request : DecisionRequest Fixed
request = record {
  symbol = "BTC-USD";
  horizon_hours = 24;
  now = 2000;
  health_result = none;
  risk_snapshot = none;
  max_position_pct = amount 15 2;
  stale_after_hours = 48;
  risk_stale_after_hours = 2;
}

abbrev repair_health : HealthCheckResult
repair_health = record {
  check_id = "health:1";
  created_at = 1500;
  status = "unhealthy";
  severity = "blocking";
  repair_required = true;
  repair_request_id = some "repair:1";
  findings = [];
}

abbrev repair_request : DecisionRequest Fixed
repair_request = record request { health_result = some repair_health }

generate-Effect_example :
    let (decision, after) = generate_strategy_decision fixed_runtime research_desk request in
    let stored =
      save_baseline_evaluation (baseline_for fixed_runtime research_desk request) research_desk in
    ((is_some (last? research_desk.portfolio_snapshots) ≡ true)
      × (after ≡ save_strategy_decision decision stored))
    ⊎ ((last? research_desk.portfolio_snapshots ≡ none)
        × (after
            ≡ save_strategy_decision decision (
                save_portfolio_snapshot
                  (empty_portfolio fixed_runtime 2000 (amount 10000 0))
                  stored)))
generate-Effect_example = generate-Effect fixed_runtime research_desk request refl

decision_tradeable_iff_unblocked_example :
    let decision = (generate_strategy_decision fixed_runtime research_desk request).0 in
    decision.tradeable ≡ is_none decision.blocked_reason
decision_tradeable_iff_unblocked_example =
    decision_tradeable_iff_unblocked fixed_runtime research_desk request

request_buys : (generate_strategy_decision fixed_runtime research_desk request).0.action ≡ "BUY"
unfolding generate_strategy_decision decide decision_of evidence_for verdict evaluate_research_gates
    build_baseline_evaluation evidence_grade naive_persistence_accuracy average
    latest_backtest_for_research latest_or_empty_portfolio latest_risk_snapshot evidence_verdict
    research_flags latest_for_symbol regime_verdict risk_blocked_reason
request_buys = refl

directional-IsJustified_example :
    IsJustified fixed_runtime research_desk request
      (generate_strategy_decision fixed_runtime research_desk request).0
directional-IsJustified_example =
    directional-IsJustified fixed_runtime research_desk request
      (ap (contains ("BUY" ∷ "SELL" ∷ [])) request_buys)
