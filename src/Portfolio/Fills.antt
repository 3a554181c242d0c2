-- ===== src/Portfolio/Fills.antt =====
-- The fill of an order, and the portfolio after it (portfolio.py).
use paper_forecast_loop.Prelude.{
  ℕ, String, Bool, not, ◌||◌, Option, none, some, List, [], ◌∷◌, ◌==◌, if◌then◌else◌, keep, find?,
}
use paper_forecast_loop.Runtime.{Runtime, zero_point, max_of, min_of}
use paper_forecast_loop.Models.Trading.{PaperOrder}
use paper_forecast_loop.Models.Portfolio.{PaperPosition, PaperPortfolioSnapshot, PaperFill}
use paper_forecast_loop.Models.Portfolio.Ids.{build_fill_id}
use paper_forecast_loop.Portfolio.Marks.{ratio_or_zero, snapshot_from_components}

module _ {F : Type 0} where
  abbrev pub position_for_symbol : PaperPortfolioSnapshot F → String → Option (PaperPosition F)
  position_for_symbol portfolio symbol = find? (λ p. p.symbol == symbol) portfolio.positions

  -- `positions_by_symbol[p.symbol] = p`
  unfoldable pub set_position : PaperPosition F → List (PaperPosition F) → List (PaperPosition F)
  set_position p [] = p ∷ []
  set_position p (q ∷ qs) = if q.symbol == p.symbol then p ∷ qs else q ∷ set_position p qs

  -- `{p.symbol: p for p in positions}`, after the entries that are there
  unfoldable pub set_all : List (PaperPosition F) → List (PaperPosition F) → List (PaperPosition F)
  set_all [] dict = dict
  set_all (p ∷ ps) dict = set_all ps (set_position p dict)

  abbrev pop_position : String → List (PaperPosition F) → List (PaperPosition F)
  pop_position symbol dict = keep (λ p. not (p.symbol == symbol)) dict

  -- `order.target_position_pct`, or else the current one, or else none
  abbrev target_pct : PaperOrder F → Option F
  target_pct order = elim order.target_position_pct [
    | some x ↦ some x
    | none ↦ order.current_position_pct
  ]

module _ {F : Type 0} (rt : Runtime F) where
  abbrev ten_thousandth : F → F
  ten_thousandth bps = rt.div bps (rt.dec 10000 0)

  unfoldable pub fill_price : String → F → F → F
  fill_price side market_price slippage_bps =
      let adjustment = ten_thousandth slippage_bps in
      if side == "BUY"
      then rt.mul market_price (rt.add (rt.dec 1 0) adjustment)
      else rt.mul market_price (rt.sub (rt.dec 1 0) adjustment)

  abbrev position_market_value : PaperPortfolioSnapshot F → String → F → F
  position_market_value portfolio symbol market_price =
      elim (position_for_symbol portfolio symbol) [
        | none ↦ zero_point rt
        | some position ↦ rt.mul position.quantity market_price
      ]

  -- `target_value - current_value`
  abbrev pub delta_value : PaperOrder F → PaperPortfolioSnapshot F → F → F
  delta_value order portfolio market_price =
      rt.sub
        (rt.mul (elim (target_pct order) [ none ↦ zero_point rt | some x ↦ x ]) portfolio.equity)
        (position_market_value portfolio order.symbol market_price)

  -- gross value, quantity and the sign of the change of cash
  pub record FillSize : Type 0 where
    pub gross_value : F
    pub quantity : F
    pub sign : F

  abbrev pub buy_size : F → F → FillSize
  buy_size delta price =
      let gross_value = max_of rt (zero_point rt) delta in
      record {
        gross_value = gross_value;
        quantity = ratio_or_zero rt gross_value price;
        sign = rt.neg (rt.dec 1 0);
      }

  unfoldable pub sell_size : Option (PaperPosition F) → F → F → Option FillSize
  sell_size none delta price = none
  sell_size (some existing) delta price =
      if rt.le existing.quantity (zero_point rt)
      then none
      else (let requested = ratio_or_zero rt (max_of rt (zero_point rt) (rt.neg delta)) price in
          let quantity = min_of rt existing.quantity requested in
          some (record {
            gross_value = rt.mul quantity price;
            quantity = quantity;
            sign = rt.dec 1 0;
          }))

  abbrev pub fill_size : PaperOrder F → PaperPortfolioSnapshot F → F → F → Option FillSize
  fill_size order portfolio market_price price =
      let delta = delta_value order portfolio market_price in
      if order.side == "BUY"
      then some (buy_size delta price)
      else sell_size (position_for_symbol portfolio order.symbol) delta price

  abbrev pub fill_of : PaperOrder F → ℕ → F → F → F → F → FillSize → PaperFill F
  fill_of order now market_price price fee_bps slippage_bps size =
      let fee = rt.mul size.gross_value (ten_thousandth fee_bps) in
      record {
        fill_id = build_fill_id rt order.order_id order.symbol order.side size.quantity price;
        order_id = order.order_id;
        decision_id = order.decision_id;
        symbol = order.symbol;
        side = order.side;
        filled_at = now;
        quantity = size.quantity;
        market_price = market_price;
        fill_price = price;
        gross_value = size.gross_value;
        fee = fee;
        fee_bps = fee_bps;
        slippage_bps = slippage_bps;
        net_cash_change = rt.sub (rt.mul size.sign size.gross_value) fee;
      }

  abbrev pub is_nothing : FillSize → Bool
  is_nothing size = rt.le size.gross_value (zero_point rt) || rt.le size.quantity (zero_point rt)

  unfoldable pub build_fill :
      PaperOrder F → ℕ → F → F → PaperPortfolioSnapshot F → F → F → Option (PaperFill F)
  build_fill order now market_price price portfolio fee_bps slippage_bps =
      elim (fill_size order portfolio market_price price) [
        | none ↦ none
        | some size ↦
            if is_nothing size
            then none
            else some (fill_of order now market_price price fee_bps slippage_bps size)
      ]

  abbrev position_at : String → F → F → F → PaperPosition F
  position_at symbol quantity avg_price market_price = record {
    symbol = symbol;
    quantity = quantity;
    avg_price = avg_price;
    market_price = market_price;
    market_value = rt.mul quantity market_price;
    unrealized_pnl = rt.mul (rt.sub market_price avg_price) quantity;
    position_pct = zero_point rt;
  }

  -- `existing.x if existing else 0.0`
  abbrev field_or_zero : (PaperPosition F → F) → Option (PaperPosition F) → F
  field_or_zero field none = zero_point rt
  field_or_zero field (some p) = field p

  abbrev bought : PaperFill F → Option (PaperPosition F) → PaperPosition F
  bought fill existing =
      let old_qty = field_or_zero (λ p. p.quantity) existing in
      let old_price = field_or_zero (λ p. p.avg_price) existing in
      let new_qty = rt.add old_qty fill.quantity in
      position_at fill.symbol new_qty
        (ratio_or_zero rt (rt.add (rt.mul old_qty old_price) fill.gross_value) new_qty)
        fill.market_price

  abbrev sold : PaperFill F → List (PaperPosition F) → PaperPosition F → F → List (PaperPosition F)
  sold fill dict existing new_qty =
      if rt.lt (zero_point rt) new_qty
      then set_position (position_at fill.symbol new_qty existing.avg_price fill.market_price) dict
      else pop_position fill.symbol dict

  abbrev after_sale :
      PaperPortfolioSnapshot F
      → PaperFill F
      → List (PaperPosition F)
      → Option (PaperPosition F)
      → PaperPortfolioSnapshot F
  after_sale portfolio fill dict none = portfolio
  after_sale portfolio fill dict (some existing) =
      if rt.le existing.quantity (zero_point rt)
      then portfolio
      else (let sold_qty = min_of rt fill.quantity existing.quantity in
          let new_qty = max_of rt (zero_point rt) (rt.sub existing.quantity sold_qty) in
          snapshot_from_components rt fill.filled_at (rt.add portfolio.cash fill.net_cash_change)
            (sold fill dict existing new_qty)
            (rt.add portfolio.realized_pnl
              (rt.sub (rt.mul (rt.sub fill.fill_price existing.avg_price) sold_qty) fill.fee))
            portfolio.max_drawdown_pct)

  unfoldable pub apply_fill : PaperPortfolioSnapshot F → PaperFill F → PaperPortfolioSnapshot F
  unfolding set_position set_all
  apply_fill portfolio fill =
      let dict = set_all portfolio.positions [] in
      let existing = find? (λ p. p.symbol == fill.symbol) dict in
      if fill.side == "BUY"
      then snapshot_from_components rt fill.filled_at (rt.add portfolio.cash fill.net_cash_change)
          (set_position (bought fill existing) dict) portfolio.realized_pnl
          portfolio.max_drawdown_pct
      else after_sale portfolio fill dict existing
