-- ===== src/Portfolio.antt =====
-- portfolio.py: paper orders are filled against a simulated price, and portfolios are marked.
pub mod Marks
pub mod Fills
pub mod Filled
pub mod Shorts
use paper_forecast_loop.Prelude.{
  ℕ, String, Bool, true, false, not, Option, none, some, List, [], ◌∷◌, ◌++◌, ◌==◌, if◌then◌else◌,
  Result, ok, err,
}
use paper_forecast_loop.Runtime.{Runtime, zero_point}
use paper_forecast_loop.Models.Trading.{PaperOrder}
use paper_forecast_loop.Models.Portfolio.{PaperPortfolioSnapshot, PaperFill, EquityCurvePoint}
use paper_forecast_loop.Storage.{
  ArtifactRepository, replace_paper_orders, save_paper_fill, save_portfolio_snapshot,
  save_equity_curve_point,
}
use paper_forecast_loop.Decision.Selection.{latest_or_empty_portfolio}
use Marks.{equity_point_from_snapshot}
use Fills.{fill_price, build_fill, apply_fill}

pub record PaperFillResult (F : Type 0) : Type 0 where
  pub status : String
  pub reason : Option String
  pub order_id : Option String
  pub fill : Option (PaperFill F)
  pub portfolio_snapshot : Option (PaperPortfolioSnapshot F)
  pub equity_curve_point : Option (EquityCurvePoint F)

-- The selected order in its place: the orders before it, the order, the orders after it.
pub record Selected (F : Type 0) : Type 0 where
  pub before : List (PaperOrder F)
  pub order : PaperOrder F
  pub later : List (PaperOrder F)

module _ {F : Type 0} where
  abbrev pub behind : PaperOrder F → Selected F → Selected F
  behind o s = record { before = o ∷ s.before; order = s.order; later = s.later }

  -- the first order with the id
  unfoldable pub select_by_id : String → List (PaperOrder F) → Option (Selected F)
  select_by_id order_id [] = none
  select_by_id order_id (o ∷ orders) =
      let rest = select_by_id order_id orders in
      if o.order_id == order_id
      then some (record { before = []; order = o; later = orders })
      else elim rest [ none ↦ none | some s ↦ some (behind o s) ]

  -- the last order that is open
  unfoldable pub select_latest : List (PaperOrder F) → Option (Selected F)
  select_latest [] = none
  select_latest (o ∷ orders) = elim (select_latest orders) [
    | some s ↦ some (behind o s)
    | none ↦
        if o.status == "CREATED"
        then some (record { before = []; order = o; later = orders })
        else none
  ]

  unfoldable pub select_order : List (PaperOrder F) → String → Option (Selected F)
  select_order orders order_id =
      if order_id == "latest" then select_latest orders else select_by_id order_id orders

  -- the list after `order.status = FILLED`
  unfoldable pub mark_filled : Selected F → List (PaperOrder F)
  mark_filled s = s.before ++ record s.order { status = "FILLED" } ∷ s.later

  abbrev pub not_filled :
      String → Option String → Option (PaperPortfolioSnapshot F) → PaperFillResult F
  not_filled reason order_id snapshot = record {
    status = "skipped";
    reason = some reason;
    order_id = order_id;
    fill = none;
    portfolio_snapshot = snapshot;
    equity_curve_point = none;
  }

module _ {F : Type 0} (rt : Runtime F) where
  -- the end of a call, with the fill
  abbrev pub store_fill :
      ArtifactRepository F
      → Selected F
      → PaperPortfolioSnapshot F
      → Option (PaperFill F)
      → PaperFillResult F × ArtifactRepository F
  store_fill repository s latest none =
      (not_filled "no_fill_required" (some s.order.order_id) (some latest), repository)
  store_fill repository s latest (some fill) =
      let updated = apply_fill rt latest fill in
      let point = equity_point_from_snapshot rt updated in
      (
        record {
          status = "filled";
          reason = none;
          order_id = some s.order.order_id;
          fill = some fill;
          portfolio_snapshot = some updated;
          equity_curve_point = some point;
        },
        save_equity_curve_point point (
            save_portfolio_snapshot updated
              (save_paper_fill fill (replace_paper_orders (mark_filled s) repository))),
      )

  abbrev pub fill_selected :
      ArtifactRepository F
      → String
      → ℕ
      → F
      → F
      → F
      → Option (Selected F)
      → PaperFillResult F × ArtifactRepository F
  fill_selected repository order_id now market_price fee_bps slippage_bps none = (
    not_filled "order_not_found" (if order_id == "latest" then none else some order_id) none,
    repository,
  )
  fill_selected repository order_id now market_price fee_bps slippage_bps (some s) =
      if not (s.order.status == "CREATED")
      then (not_filled "order_not_open" (some s.order.order_id) none, repository)
      else (let (latest, after) = latest_or_empty_portfolio rt repository now in
          let price = fill_price rt s.order.side market_price slippage_bps in
          store_fill after s latest
            (build_fill rt s.order now market_price price latest fee_bps slippage_bps))

  unfoldable pub fill_paper_order :
      ArtifactRepository F
      → String
      → ℕ
      → F
      → F
      → F
      → Result (PaperFillResult F) × ArtifactRepository F
  fill_paper_order repository order_id now market_price fee_bps slippage_bps =
      if rt.le market_price (zero_point rt)
      then (err "market_price must be positive.", repository)
      else (let (result, after) =
            fill_selected repository order_id now market_price fee_bps slippage_bps
              (select_order repository.paper_orders order_id) in
          (ok result, after))
