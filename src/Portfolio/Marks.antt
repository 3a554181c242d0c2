-- ===== src/Portfolio/Marks.antt =====
-- Portfolio snapshots and equity points (portfolio.py).
use paper_forecast_loop.Prelude.{
  ℕ, String, Bool, ◌&&◌, Option, some, List, ◌==◌, if◌then◌else◌, keep, map, Result, ok, err,
}
use paper_forecast_loop.Runtime.{Runtime, zero_point}
use paper_forecast_loop.Models.Portfolio.{PaperPosition, PaperPortfolioSnapshot, EquityCurvePoint}
use paper_forecast_loop.Models.Portfolio.Ids.{build_portfolio_id, build_equity_point_id}
use paper_forecast_loop.Storage.{
  ArtifactRepository, save_portfolio_snapshot, save_equity_curve_point,
}
use paper_forecast_loop.Decision.Selection.{latest_or_empty_portfolio}

module _ {F : Type 0} (rt : Runtime F) where
  -- `not x` for a float
  abbrev pub is_zero : F → Bool
  is_zero x = rt.le x (zero_point rt) && rt.le (zero_point rt) x

  -- `a / b if b else 0.0`
  abbrev pub ratio_or_zero : F → F → F
  ratio_or_zero a b = if is_zero b then zero_point rt else rt.div a b

  unfoldable pub snapshot_from_components :
      ℕ → F → List (PaperPosition F) → F → Option F → PaperPortfolioSnapshot F
  snapshot_from_components created_at cash positions realized_pnl max_drawdown_pct =
      let total_market_value = rt.sum (map (λ p. p.market_value) positions) in
      let equity = rt.add cash total_market_value in
      let normalized_positions =
        map
          (λ (p : PaperPosition F). record p { position_pct = ratio_or_zero p.market_value equity })
          (keep (λ p. rt.lt (zero_point rt) p.quantity) positions) in
      record {
        snapshot_id = build_portfolio_id rt created_at equity cash normalized_positions;
        created_at = created_at;
        equity = equity;
        cash = cash;
        gross_exposure_pct = ratio_or_zero (rt.abs total_market_value) equity;
        net_exposure_pct = ratio_or_zero total_market_value equity;
        max_drawdown_pct = max_drawdown_pct;
        positions = normalized_positions;
        realized_pnl = realized_pnl;
        unrealized_pnl = rt.sum (map (λ p. p.unrealized_pnl) positions);
        nav = some equity;
      }

  unfoldable pub equity_point_from_snapshot : PaperPortfolioSnapshot F → EquityCurvePoint F
  equity_point_from_snapshot snapshot = record {
    point_id = build_equity_point_id rt snapshot.created_at snapshot.equity snapshot.cash;
    created_at = snapshot.created_at;
    equity = snapshot.equity;
    cash = snapshot.cash;
    realized_pnl = snapshot.realized_pnl;
    unrealized_pnl = snapshot.unrealized_pnl;
    gross_exposure_pct = snapshot.gross_exposure_pct;
    net_exposure_pct = snapshot.net_exposure_pct;
    max_drawdown_pct = snapshot.max_drawdown_pct;
  }

  abbrev marked : F → String → PaperPosition F → PaperPosition F
  marked market_price symbol position =
      if position.symbol == symbol
      then record position {
        market_price = market_price;
        market_value = rt.mul position.quantity market_price;
        unrealized_pnl = rt.mul (rt.sub market_price position.avg_price) position.quantity;
        position_pct = zero_point rt;
      }
      else position

  unfoldable pub create_portfolio_snapshot :
      ArtifactRepository F
      → ℕ
      → F
      → String
      → Result (PaperPortfolioSnapshot F) × ArtifactRepository F
  create_portfolio_snapshot repository now market_price symbol =
      if rt.le market_price (zero_point rt)
      then (err "market_price must be positive.", repository)
      else (let (latest, after) = latest_or_empty_portfolio rt repository now in
          (
            ok (
                snapshot_from_components now latest.cash
                  (map (marked market_price symbol) latest.positions) latest.realized_pnl
                  latest.max_drawdown_pct),
            after,
          ))

  unfoldable pub save_portfolio_mark :
      ArtifactRepository F → PaperPortfolioSnapshot F → EquityCurvePoint F × ArtifactRepository F
  save_portfolio_mark repository snapshot =
      let point = equity_point_from_snapshot snapshot in
      (point, save_equity_curve_point point (save_portfolio_snapshot snapshot repository))
