-- ===== src/Models/Portfolio/Ids.antt =====
-- models.py: the `build_id` of portfolio and risk artifacts.
use paper_forecast_loop.Prelude.{ℕ, String, List, [], map, ◌∷◌}
use paper_forecast_loop.Prelude.Text.{sorted}
use paper_forecast_loop.Runtime.{
  Runtime, stable_artifact_id, Json, object_of, text, number, array, texts, items_of,
}
use paper_forecast_loop.Models.Portfolio.{PaperPosition}

module _ {F : Type 0} (rt : Runtime F) where
  -- `PaperPosition.to_dict`
  position_json : PaperPosition F → Json F
  position_json p = object_of (
      ("symbol", text p.symbol)
      ∷ ("quantity", number p.quantity)
      ∷ ("avg_price", number p.avg_price)
      ∷ ("market_price", number p.market_price)
      ∷ ("market_value", number p.market_value)
      ∷ ("unrealized_pnl", number p.unrealized_pnl)
      ∷ ("position_pct", number p.position_pct)
      ∷ [])

  unfoldable pub build_portfolio_id : ℕ → F → F → List (PaperPosition F) → String
  unfolding stable_artifact_id position_json
  build_portfolio_id created_at equity cash positions = stable_artifact_id rt "portfolio" (
      ("created_at", text (rt.isoformat created_at))
      ∷ ("equity", number (rt.round equity 8))
      ∷ ("cash", number (rt.round cash 8))
      ∷ ("positions", array (items_of (map position_json positions)))
      ∷ [])

  unfoldable pub build_fill_id : String → String → String → F → F → String
  unfolding stable_artifact_id
  build_fill_id order_id symbol side quantity fill_price = stable_artifact_id rt "paper-fill" (
      ("order_id", text order_id)
      ∷ ("symbol", text symbol)
      ∷ ("side", text side)
      ∷ ("quantity", number (rt.round quantity 12))
      ∷ ("fill_price", number (rt.round fill_price 12))
      ∷ [])

  unfoldable pub build_equity_point_id : ℕ → F → F → String
  unfolding stable_artifact_id
  build_equity_point_id created_at equity cash = stable_artifact_id rt "equity" (
      ("created_at", text (rt.isoformat created_at))
      ∷ ("equity", number (rt.round equity 8))
      ∷ ("cash", number (rt.round cash 8))
      ∷ [])

  unfoldable pub build_risk_id : ℕ → String → String → F → F → List String → String
  unfolding stable_artifact_id
  build_risk_id created_at symbol status current_drawdown_pct gross_exposure_pct findings =
      stable_artifact_id rt "risk" (
        ("created_at", text (rt.isoformat created_at))
        ∷ ("symbol", text symbol)
        ∷ ("status", text status)
        ∷ ("current_drawdown_pct", number (rt.round current_drawdown_pct 8))
        ∷ ("gross_exposure_pct", number (rt.round gross_exposure_pct 8))
        ∷ ("findings", texts (sorted findings))
        ∷ [])
