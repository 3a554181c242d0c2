-- ===== src/Portfolio/Shorts.antt =====
-- A sale never sells more than is held (portfolio.py, `_build_fill`).
use paper_forecast_loop.Prelude.{
  ℕ, ◌≡◌, subst, inl, inr, true, false, if◌then◌else◌, Option, none, some, ◌==◌, Bool-cases,
}
use paper_forecast_loop.Runtime.{Runtime, IsIeee, zero_point, min_of}
use paper_forecast_loop.Models.Trading.{PaperOrder}
use paper_forecast_loop.Models.Portfolio.{PaperPosition, PaperPortfolioSnapshot, PaperFill}
use paper_forecast_loop.Risk.Drawdown.{lt_le}
use paper_forecast_loop.Portfolio.Fills.{
  FillSize, position_for_symbol, delta_value, is_nothing, fill_of, fill_size, sell_size, build_fill,
}

module _ {F : Type 0} (rt : Runtime F) where
  min_of_at_most : IsIeee rt → (x y : F) → rt.le x x ≡ true → rt.le (min_of rt x y) x ≡ true
  min_of_at_most laws x y fine = elim (Bool-cases (rt.lt y x)) [
    | inl below ↦ rw below (lt_le rt laws y x below)
    | inr other ↦ rw other fine
  ]

  -- the quantity of a size that may be missing
  abbrev AtMost : F → Option (FillSize rt) → Type 0
  AtMost held none = Unit {0}
  AtMost held (some size) = rt.le size.quantity held ≡ true

  sell_size-AtMost :
      IsIeee rt
      → (p : PaperPosition F) (delta price : F) → rt.le p.quantity p.quantity ≡ true
      → AtMost p.quantity (sell_size rt (some p) delta price)
  unfolding sell_size
  sell_size-AtMost laws p delta price fine = elim (Bool-cases (rt.le p.quantity (zero_point rt))) [
    | inl empty ↦ rw empty tt
    | inr held ↦ rw held (min_of_at_most laws p.quantity _ fine)
  ]

  abbrev FillAtMost : F → Option (PaperFill F) → Type 0
  FillAtMost held none = Unit {0}
  FillAtMost held (some fill) = rt.le fill.quantity held ≡ true

  -- Under the laws of the IEEE order, a fill of an order that is not a BUY, on a portfolio that holds
  -- a position of the symbol with a quantity that is not NaN, has at most that quantity.
  pub sale_within_holding :
      IsIeee rt
      → (order : PaperOrder F) (now : ℕ) (market_price price : F)
        (portfolio : PaperPortfolioSnapshot F) (fee_bps slippage_bps : F)
      → (p : PaperPosition F) (fill : PaperFill F) → (order.side == "BUY") ≡ false
      → position_for_symbol portfolio order.symbol ≡ some p
      → rt.le p.quantity p.quantity ≡ true
      → build_fill rt order now market_price price portfolio fee_bps slippage_bps ≡ some fill
      → rt.le fill.quantity p.quantity ≡ true
  unfolding build_fill
  sale_within_holding laws order now market_price price portfolio fee_bps slippage_bps p fill sells
        held fine built =
      subst (FillAtMost p.quantity) built
        (by_size (fill_size rt order portfolio market_price price) sized)
    where
      sized : AtMost p.quantity (fill_size rt order portfolio market_price price)
      sized =
          rw (sells, held)
            (sell_size-AtMost laws p (delta_value rt order portfolio market_price) price fine)

      by_size :
          (o : Option (FillSize rt))
          → AtMost p.quantity o
          → FillAtMost p.quantity (elim o [
            | none ↦ none
            | some size ↦
                if is_nothing rt size
                then none
                else some (fill_of rt order now market_price price fee_bps slippage_bps size)
          ])
      by_size none h = tt
      by_size (some size) h = elim (Bool-cases (is_nothing rt size)) [
        | inl nothing ↦ rw nothing tt
        | inr something ↦ rw something h
      ]
