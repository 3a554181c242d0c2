-- ===== src/Tests/Portfolio.antt =====
-- Fills of paper orders.
use paper_forecast_loop.Prelude.{◌≡◌, refl, true, some, [], ◌∷◌, arith}
use paper_forecast_loop.Runtime.Fixed.{Fixed, fixed_runtime, Fixed-IsIeee}
use paper_forecast_loop.Models.Trading.{PaperOrder}
use paper_forecast_loop.Models.Portfolio.{PaperPosition, PaperPortfolioSnapshot, PaperFill}
use paper_forecast_loop.Models.Portfolio.Ids.{build_fill_id}
use paper_forecast_loop.Models.Portfolio.Snapshots.{empty_portfolio}
use paper_forecast_loop.Storage.{ArtifactRepository}
use paper_forecast_loop.Orders.Single.{IsSingle}
use paper_forecast_loop.Portfolio.{fill_paper_order}
use paper_forecast_loop.Portfolio.Fills.{build_fill, fill_of, sell_size}
use paper_forecast_loop.Portfolio.Filled.{
  FillEffect, fill_paper_order-Effect, fill_paper_order-keeps_IsSingle,
}
use paper_forecast_loop.Portfolio.Shorts.{sale_within_holding}
use paper_forecast_loop.Tests.Fixtures.{amount, order, desk}

abbrev open_order_desk : ArtifactRepository Fixed
open_order_desk = record desk {
  paper_orders = order "paper-order:0" "FILLED" ∷ order "paper-order:1" "CREATED" ∷ [];
}

fill_paper_order-Effect_example : FillEffect fixed_runtime open_order_desk "latest" (amount 100 0) (
    fill_paper_order fixed_runtime open_order_desk "latest" 200
      (amount 100 0)
      (amount 5 0)
      (amount 10 0))
fill_paper_order-Effect_example =
    fill_paper_order-Effect fixed_runtime open_order_desk "latest" 200 (amount 100 0) (amount 5 0)
      (amount 10 0)

fill_paper_order-keeps_IsSingle_example :
    IsSingle
      (fill_paper_order fixed_runtime open_order_desk "latest" 200
        (amount 100 0)
        (amount 5 0)
        (amount 10 0)).1.paper_orders
fill_paper_order-keeps_IsSingle_example =
    fill_paper_order-keeps_IsSingle fixed_runtime open_order_desk "latest" 200 (amount 100 0)
      (amount 5 0) (amount 10 0) (ground arith)

abbrev sale : PaperOrder Fixed
sale = record (order "paper-order:2" "CREATED") {
  side = "SELL";
  target_position_pct = some (amount 0 0);
}

abbrev holding : PaperPosition Fixed
holding = record {
  symbol = "BTC-USD";
  quantity = amount 2 0;
  avg_price = amount 90 0;
  market_price = amount 100 0;
  market_value = amount 200 0;
  unrealized_pnl = amount 20 0;
  position_pct = amount 2 2;
}

abbrev pub holder : PaperPortfolioSnapshot Fixed
holder = record (empty_portfolio fixed_runtime 100 (amount 10000 0)) { positions = holding ∷ [] }

-- the sale at a price below the market, which asks for more than is held
abbrev sale_fill : PaperFill Fixed
sale_fill =
    fill_of fixed_runtime sale 200 (amount 100 0) (amount 99 0) (amount 5 0) (amount 10 0)
      (record { gross_value = amount 198 0; quantity = amount 2 0; sign = amount 1 0 })

sale_within_holding_example : fixed_runtime.le sale_fill.quantity (amount 2 0) ≡ true
unfolding build_fill sell_size build_fill_id empty_portfolio
sale_within_holding_example =
    sale_within_holding fixed_runtime Fixed-IsIeee sale 200 (amount 100 0) (amount 99 0) holder
      (amount 5 0) (amount 10 0) holding sale_fill refl refl refl refl
