-- ===== src/Models/Portfolio/Snapshots.antt =====
-- models.py: `PaperPortfolioSnapshot.empty` and `position_pct_for`.
use paper_forecast_loop.Prelude.{ℕ, String, none, some, [], find?, ◌==◌}
use paper_forecast_loop.Runtime.{Runtime, zero_point}
use paper_forecast_loop.Models.Portfolio.{PaperPortfolioSnapshot}
use paper_forecast_loop.Models.Portfolio.Ids.{build_portfolio_id}

module _ {F : Type 0} (rt : Runtime F) where
  unfoldable pub empty_portfolio : ℕ → F → PaperPortfolioSnapshot F
  empty_portfolio created_at equity = record {
    snapshot_id = build_portfolio_id rt created_at equity equity [];
    created_at = created_at;
    equity = equity;
    cash = equity;
    gross_exposure_pct = zero_point rt;
    net_exposure_pct = zero_point rt;
    max_drawdown_pct = none;
    positions = [];
    realized_pnl = zero_point rt;
    unrealized_pnl = zero_point rt;
    nav = some equity;
  }

  unfoldable pub position_pct_for : PaperPortfolioSnapshot F → String → F
  position_pct_for portfolio symbol = elim (find? (λ p. p.symbol == symbol) portfolio.positions) [
    | none ↦ zero_point rt
    | some position ↦ position.position_pct
  ]
