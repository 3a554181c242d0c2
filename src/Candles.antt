-- ===== src/Candles.antt =====
-- The candles of a run: `_select_candles` and `_validate_strictly_increasing_timestamps`, which
-- backtest.py and walk_forward.py hold in the same words.
pub mod Increasing
pub mod Selected
use paper_forecast_loop.Prelude.{
  ℕ, String, Bool, not, ◌&&◌, ◌||◌, Option, none, some, List, [], ◌∷◌, ◌==◌, if◌then◌else◌, ltb,
  leb, eqb, keep, any, sorted_by,
}
use paper_forecast_loop.Prelude.Text.{text_lt}
use paper_forecast_loop.Models.Research.{MarketCandleRecord}

module _ {F : Type 0} where
  -- `candle.adjusted_close if candle.adjusted_close is not None else candle.close`
  abbrev pub price_of : MarketCandleRecord F → F
  price_of candle = elim candle.adjusted_close [ none ↦ candle.close | some price ↦ price ]

  abbrev pub in_range : String → ℕ → ℕ → MarketCandleRecord F → Bool
  in_range symbol start end record_ =
      record_.symbol == symbol && (leb start record_.timestamp && leb record_.timestamp end)

  -- the order of `(imported_at, source, candle_id)`
  abbrev pub import_lt : MarketCandleRecord F → MarketCandleRecord F → Bool
  import_lt a b =
      ltb a.imported_at b.imported_at
      || (eqb a.imported_at b.imported_at
          && (text_lt a.source b.source
              || (a.source == b.source && text_lt a.candle_id b.candle_id)))

  -- the dictionary `by_time` is the list of its values: each stands at its own timestamp
  abbrev pub put_latest :
      List (MarketCandleRecord F) → MarketCandleRecord F → List (MarketCandleRecord F)
  put_latest [] candle = candle ∷ []
  put_latest (existing ∷ by_time) candle =
      let rest = put_latest by_time candle in
      if eqb existing.timestamp candle.timestamp
      then (if import_lt existing candle then candle ∷ by_time else existing ∷ by_time)
      else existing ∷ rest

  abbrev pub latest_imports :
      String
      → ℕ
      → ℕ
      → ℕ
      → List (MarketCandleRecord F)
      → List (MarketCandleRecord F)
      → List (MarketCandleRecord F)
  latest_imports symbol start end as_of by_time [] = by_time
  latest_imports symbol start end as_of by_time (candle ∷ candles) =
      latest_imports symbol start end as_of
        (if not (in_range symbol start end candle)
          then by_time
          else if ltb as_of candle.imported_at
          then by_time
          else put_latest by_time candle)
        candles

  unfoldable pub select_candles :
      List (MarketCandleRecord F) → String → ℕ → ℕ → Option ℕ → List (MarketCandleRecord F)
  select_candles candles symbol start end none = keep (in_range symbol start end) candles
  select_candles candles symbol start end (some as_of) =
      sorted_by (λ c. c.timestamp) (latest_imports symbol start end as_of [] candles)

  -- The timestamp that `_validate_strictly_increasing_timestamps` complains of.
  abbrev pub repeated_after : ℕ → List (MarketCandleRecord F) → Option ℕ
  repeated_after previous_timestamp [] = none
  repeated_after previous_timestamp (candle ∷ candles) =
      if leb candle.timestamp previous_timestamp
      then some candle.timestamp
      else repeated_after candle.timestamp candles

  unfoldable pub repeated_timestamp : List (MarketCandleRecord F) → Option ℕ
  repeated_timestamp [] = none
  repeated_timestamp (candle ∷ candles) = repeated_after candle.timestamp candles
