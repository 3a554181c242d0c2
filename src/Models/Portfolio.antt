-- ===== src/Models/Portfolio.antt =====
-- models.py: positions, portfolio snapshots, fills, equity points and risk snapshots.
pub mod Ids
pub mod Snapshots
use paper_forecast_loop.Prelude.{ℕ, String, Option, List}

pub record PaperPosition (F : Type 0) : Type 0 where
  pub symbol : String
  pub quantity : F
  pub avg_price : F
  pub market_price : F
  pub market_value : F
  pub unrealized_pnl : F
  pub position_pct : F

pub record PaperPortfolioSnapshot (F : Type 0) : Type 0 where
  pub snapshot_id : String
  pub created_at : ℕ
  pub equity : F
  pub cash : F
  pub gross_exposure_pct : F
  pub net_exposure_pct : F
  pub max_drawdown_pct : Option F
  pub positions : List (PaperPosition F)
  pub realized_pnl : F
  pub unrealized_pnl : F
  pub nav : Option F

pub record PaperFill (F : Type 0) : Type 0 where
  pub fill_id : String
  pub order_id : String
  pub decision_id : String
  pub symbol : String
  pub side : String
  pub filled_at : ℕ
  pub quantity : F
  pub market_price : F
  pub fill_price : F
  pub gross_value : F
  pub fee : F
  pub fee_bps : F
  pub slippage_bps : F
  pub net_cash_change : F

pub record EquityCurvePoint (F : Type 0) : Type 0 where
  pub point_id : String
  pub created_at : ℕ
  pub equity : F
  pub cash : F
  pub realized_pnl : F
  pub unrealized_pnl : F
  pub gross_exposure_pct : F
  pub net_exposure_pct : F
  pub max_drawdown_pct : Option F

pub record RiskSnapshot (F : Type 0) : Type 0 where
  pub risk_id : String
  pub created_at : ℕ
  pub symbol : String
  pub status : String
  pub severity : String
  pub current_drawdown_pct : F
  pub max_drawdown_pct : F
  pub gross_exposure_pct : F
  pub net_exposure_pct : F
  pub position_pct : F
  pub max_position_pct : F
  pub max_gross_exposure_pct : F
  pub reduce_risk_drawdown_pct : F
  pub stop_new_entries_drawdown_pct : F
  pub findings : List String
  pub recommended_action : String
  pub decision_basis : String
