-- ===== src/Tests/Risk.antt =====
-- The risk check.
use paper_forecast_loop.Prelude.{◌≡◌, refl, ◌↔◌, true, false, some, [], ◌∷◌, ◌==◌}
use paper_forecast_loop.Prelude.Text.{contains}
use paper_forecast_loop.Runtime.Fixed.{Fixed, fixed_runtime, nan, Fixed-IsIeee}
use paper_forecast_loop.Models.Portfolio.{EquityCurvePoint}
use paper_forecast_loop.Models.Portfolio.Snapshots.{empty_portfolio}
use paper_forecast_loop.Storage.{ArtifactRepository, save_risk_snapshot}
use paper_forecast_loop.Risk.{
  RiskRequest, portfolio_or_empty, current_drawdown_pct, risk_status, risk_snapshot_for,
  evaluate_risk,
}
use paper_forecast_loop.Risk.Drawdown.{IsFallFrom, current_drawdown_pct-IsFallFrom}
use paper_forecast_loop.Risk.Status.{IsWithinLimits, risk_status_exact, risk_holds_directions}
use paper_forecast_loop.Decision.Generate.{generate_strategy_decision}
use paper_forecast_loop.Tests.Fixtures.{amount}
use paper_forecast_loop.Tests.Research.{research_desk}
use paper_forecast_loop.Tests.Decision.{request}

abbrev limits : RiskRequest Fixed
limits = record {
  symbol = "BTC-USD";
  now = 1500;
  max_position_pct = amount 15 2;
  max_gross_exposure_pct = amount 20 2;
  reduce_risk_drawdown_pct = amount 5 2;
  stop_new_entries_drawdown_pct = amount 10 2;
}

-- the equity has been a half above the one of an empty portfolio
abbrev peak_point : EquityCurvePoint Fixed
peak_point = record {
  point_id = "equity:1";
  created_at = 500;
  equity = amount 15000 0;
  cash = amount 15000 0;
  realized_pnl = amount 0 0;
  unrealized_pnl = amount 0 0;
  gross_exposure_pct = amount 0 0;
  net_exposure_pct = amount 0 0;
  max_drawdown_pct = some nan;
}

abbrev fallen_desk : ArtifactRepository Fixed
fallen_desk = record research_desk { equity_curve_points = peak_point ∷ [] }

current_drawdown_pct-IsFallFrom_example :
    (peak : Fixed) × IsFallFrom fixed_runtime
      (amount 10000 0)
      (amount 15000 0 ∷ [])
      (current_drawdown_pct fixed_runtime
        (empty_portfolio fixed_runtime 1500 (amount 10000 0))
        (peak_point ∷ []))
      peak
unfolding empty_portfolio
current_drawdown_pct-IsFallFrom_example =
    current_drawdown_pct-IsFallFrom fixed_runtime Fixed-IsIeee
      (empty_portfolio fixed_runtime 1500 (amount 10000 0)) (peak_point ∷ []) refl (refl, tt)

risk_status_exact_example :
    let (snapshot, after) = evaluate_risk fixed_runtime fallen_desk limits in
    let portfolio = portfolio_or_empty fixed_runtime fallen_desk 1500 in
    let drawdown = current_drawdown_pct fixed_runtime portfolio (peak_point ∷ []) in
    (after ≡ save_risk_snapshot snapshot fallen_desk)
    × ((snapshot.status == "STOP_NEW_ENTRIES") ≡ fixed_runtime.le (amount 10 2) drawdown)
    × (((snapshot.status == "OK") ≡ true) ↔ IsWithinLimits fixed_runtime limits portfolio drawdown)
risk_status_exact_example = risk_status_exact fixed_runtime fallen_desk limits

risk_holds_directions_example :
    let stopped = record request {
      risk_snapshot = some (evaluate_risk fixed_runtime fallen_desk limits).0;
    } in
    contains
      ("BUY" ∷ "SELL" ∷ [])
      (generate_strategy_decision fixed_runtime research_desk stopped).0.action
    ≡ false
unfolding evaluate_risk risk_snapshot_for risk_status current_drawdown_pct empty_portfolio
risk_holds_directions_example =
    risk_holds_directions fixed_runtime fallen_desk limits research_desk request refl
