-- ===== src/Tests/Backtest.antt =====
-- Candles, backtests and walk-forward validations.
use paper_forecast_loop.Prelude.{
  ℕ, ◌≡◌, refl, ◌&&◌, Bool, true, false, Option, none, some, List, [], ◌∷◌, ◌++◌, Result, ok, err,
  All, any, length, take, eqb, String, map, arith,
}
use paper_forecast_loop.Runtime.Fixed.{Fixed, fixed_runtime}
use paper_forecast_loop.Models.Research.{
  MarketCandleRecord, BacktestRun, BacktestResult, WalkForwardValidation,
}
use paper_forecast_loop.Storage.{ArtifactRepository, empty_repository}
use paper_forecast_loop.Candles.{select_candles, repeated_timestamp}
use paper_forecast_loop.Candles.Increasing.{IsIncreasing, has_key}
use paper_forecast_loop.Candles.Selected.{time_of, IsKnown, is_known, select_candles_point_in_time}
use paper_forecast_loop.Backtest.Simulation.{simulate}
use paper_forecast_loop.Backtest.NoLookAhead.{no_look_ahead}
use paper_forecast_loop.WalkForward.{candles_for, run_walk_forward_validation}
use paper_forecast_loop.WalkForward.Windows.{WalkForwardRequest}
use paper_forecast_loop.WalkForward.Validated.{
  IsValidated, run_walk_forward_validation_terminates, walk_forward_rolls,
}
use paper_forecast_loop.Tests.Fixtures.{amount}
use paper_forecast_loop.Tests.Research.{backtest, walk_forward}

abbrev candle : String → ℕ → ℕ → ℕ → MarketCandleRecord Fixed
candle id timestamp imported_at price = record {
  candle_id = id;
  symbol = "BTC-USD";
  timestamp = timestamp;
  open_price = amount price 0;
  high = amount price 0;
  low = amount price 0;
  close = amount price 0;
  volume = amount 1 0;
  source = "fixture";
  imported_at = imported_at;
  adjusted_close = none;
}

-- Two imports of the second candle, one of them late.
abbrev stored : List (MarketCandleRecord Fixed)
stored =
    candle "c:2" 20 25 110
    ∷ candle "c:1" 10 15 100
    ∷ candle "c:2b" 20 27 111
    ∷ candle "c:2c" 20 90 112
    ∷ candle "c:3" 30 35 120
    ∷ []

select_candles_point_in_time_example :
    let selected = select_candles stored "BTC-USD" 0 100 (some 50) in
    (repeated_timestamp selected ≡ none)
    × (IsIncreasing time_of selected
        × (All (IsKnown "BTC-USD" 0 100 50) selected
            × (has_key time_of 20 selected
                ≡ any (λ c. is_known "BTC-USD" 0 100 50 c && eqb c.timestamp 20) stored)))
select_candles_point_in_time_example = select_candles_point_in_time stored "BTC-USD" 0 100 50 20

latest_known_import :
    map (λ c. c.candle_id) (select_candles stored "BTC-USD" 0 100 (some 50))
    ≡ "c:1" ∷ "c:2b" ∷ "c:3" ∷ []
unfolding select_candles
latest_known_import = refl

abbrev run : BacktestRun Fixed
run = record {
  backtest_id = "backtest-run:1";
  created_at = 100;
  symbol = "BTC-USD";
  start = 0;
  end = 100;
  strategy_name = "moving_average_trend";
  initial_cash = amount 10000 0;
  fee_bps = amount 5 0;
  slippage_bps = amount 10 0;
  moving_average_window = 2;
  candle_ids = [];
  decision_basis = "test";
}

abbrev early_candles : List (MarketCandleRecord Fixed)
early_candles = candle "d:2" 20 25 110 ∷ candle "d:3" 30 35 120 ∷ candle "d:4" 40 45 90 ∷ []

abbrev later_candles : List (MarketCandleRecord Fixed)
later_candles = candle "d:5" 50 55 80 ∷ candle "d:6" 60 65 130 ∷ []

abbrev or_else : {A : Type 0} → Result A → A → A
or_else (ok a) default = a
or_else (err why) default = default

abbrev all_candles : List (MarketCandleRecord Fixed)
all_candles = candle "d:1" 10 15 100 ∷ early_candles ++ later_candles

abbrev full : BacktestResult Fixed
unfolding simulate
full = or_else (simulate fixed_runtime run 100 all_candles 2) backtest

no_look_ahead_example :
    (early : BacktestResult Fixed) × ((simulate fixed_runtime run 100
          (candle "d:1" 10 15 100 ∷ early_candles)
          2
        ≡ ok early)
      × ((length early.equity_curve ≡ 4) × (take 4 full.equity_curve ≡ early.equity_curve)))
unfolding full simulate
no_look_ahead_example =
    no_look_ahead fixed_runtime run 100 2 (candle "d:1" 10 15 100) early_candles later_candles full
      refl

-- The position that the rise opened is closed after the fall.
two_trades : full.trade_count ≡ 2
unfolding full simulate
two_trades = refl

abbrev walk_request : WalkForwardRequest Fixed
walk_request = record {
  symbol = "BTC-USD";
  start = 0;
  end = 100;
  created_at = 100;
  train_size = 1;
  validation_size = 2;
  test_size = 2;
  step_size = 1;
  initial_cash = amount 10000 0;
  fee_bps = amount 5 0;
  slippage_bps = amount 10 0;
  moving_average_window = 2;
  as_of = none;
  id_context = none;
}

abbrev market : ArtifactRepository Fixed
market = record empty_repository { market_candles = all_candles }

abbrev finished :
    Option (Result (WalkForwardValidation Fixed) × ArtifactRepository Fixed)
    → Result (WalkForwardValidation Fixed) × ArtifactRepository Fixed
finished none = (err "not finished", empty_repository)
finished (some outcome) = outcome

abbrev outcome : Option (Result (WalkForwardValidation Fixed) × ArtifactRepository Fixed)
outcome = run_walk_forward_validation fixed_runtime walk_request market

abbrev validation : WalkForwardValidation Fixed
validation = or_else (finished outcome).0 walk_forward

abbrev returned : Option (Result (WalkForwardValidation Fixed) × ArtifactRepository Fixed) → Bool
returned none = false
returned (some (ok v, after)) = true
returned (some (err why, after)) = false

returned_outcome :
    (o : Option (Result (WalkForwardValidation Fixed) × ArtifactRepository Fixed))
    → returned o ≡ true
    → o ≡ some (ok (or_else (finished o).0 walk_forward), (finished o).1)
returned_outcome none h = ground arith
returned_outcome (some (ok v, after)) h = refl
returned_outcome (some (err why, after)) h = ground arith

two_windows : validation.window_count ≡ 2
unfolding run_walk_forward_validation simulate
two_windows = refl

run_walk_forward_validation_terminates_example :
    (o : Result (WalkForwardValidation Fixed) × ArtifactRepository Fixed)
    × (run_walk_forward_validation fixed_runtime walk_request market ≡ some o)
run_walk_forward_validation_terminates_example =
    run_walk_forward_validation_terminates fixed_runtime walk_request market

walk_forward_rolls_example :
    (candles : List (MarketCandleRecord Fixed)) × ((candles_for fixed_runtime walk_request
          market.market_candles
        ≡ ok candles)
      × IsValidated walk_request candles validation)
unfolding run_walk_forward_validation simulate
walk_forward_rolls_example =
    walk_forward_rolls fixed_runtime walk_request market (finished outcome).1 validation
      (returned_outcome outcome refl)
