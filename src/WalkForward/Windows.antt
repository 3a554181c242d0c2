-- ===== src/WalkForward/Windows.antt =====
-- The loop of `run_walk_forward_validation`: one window in each round, with a backtest of its
-- validation candles and one of its test candles.
use paper_forecast_loop.Prelude.{
  ℕ, zero, suc, ◌+◌, String, Bool, true, false, ◌&&◌, Option, none, some, List, [], ◌∷◌, ◌++◌,
  if◌then◌else◌, leb, length, ends, Result, ok, err,
}
use paper_forecast_loop.Runtime.{Runtime, zero_point}
use paper_forecast_loop.Models.Research.{MarketCandleRecord, BacktestResult, WalkForwardWindow}
use paper_forecast_loop.Models.Research.Ids.{build_window_id}
use paper_forecast_loop.Storage.{ArtifactRepository}
use paper_forecast_loop.Backtest.{BacktestRequest, run_backtest}
use paper_forecast_loop.Backtest.Simulation.{slice}

pub record WalkForwardRequest (F : Type 0) : Type 0 where
  pub symbol : String
  pub start : ℕ
  pub end : ℕ
  pub created_at : ℕ
  pub train_size : ℕ
  pub validation_size : ℕ
  pub test_size : ℕ
  pub step_size : ℕ
  pub initial_cash : F
  pub fee_bps : F
  pub slippage_bps : F
  pub moving_average_window : ℕ
  pub as_of : Option ℕ
  pub id_context : Option String

-- A computation over the repository, followed by another if it raises nothing.
abbrev pub follow :
    {F : Type 0} {A B : Type 0}
    → Result A × ArtifactRepository F
    → (A → ArtifactRepository F → Result B × ArtifactRepository F)
    → Result B × ArtifactRepository F
follow (ok a, repository) next = next a repository
follow (err why, repository) next = (err why, repository)

abbrev pub overfit_flag_if : Bool → String → List String
overfit_flag_if test flag = if test then flag ∷ [] else []

module _ {F : Type 0} where
  abbrev pub required_candles : WalkForwardRequest F → ℕ
  required_candles r = r.train_size + r.validation_size + r.test_size

  -- `candles[0].timestamp` and `candles[-1].timestamp`
  abbrev bounds_at : Option (MarketCandleRecord F × MarketCandleRecord F) → Result (ℕ × ℕ)
  bounds_at none = err "list index out of range"
  bounds_at (some (first, last)) = ok (first.timestamp, last.timestamp)

  abbrev pub bounds_of : List (MarketCandleRecord F) → Result (ℕ × ℕ)
  bounds_of candles = bounds_at (ends candles)

  abbrev pub request_within : WalkForwardRequest F → ℕ × ℕ → BacktestRequest F
  request_within r (start, end) = record {
    symbol = r.symbol;
    start = start;
    end = end;
    created_at = r.created_at;
    initial_cash = r.initial_cash;
    fee_bps = r.fee_bps;
    slippage_bps = r.slippage_bps;
    moving_average_window = r.moving_average_window;
    as_of = r.as_of;
    id_context = r.id_context;
  }

-- The three slices of a round.
module _ {F : Type 0} (r : WalkForwardRequest F) (candles : List (MarketCandleRecord F))
    (offset : ℕ) where
  abbrev pub train_of : List (MarketCandleRecord F)
  train_of = slice offset (offset + r.train_size) candles

  abbrev pub validation_of : List (MarketCandleRecord F)
  validation_of = slice (offset + r.train_size) (offset + r.train_size + r.validation_size) candles

  abbrev pub test_of : List (MarketCandleRecord F)
  test_of = slice (offset + r.train_size + r.validation_size) (offset + required_candles r) candles

module _ {F : Type 0} (rt : Runtime F) where
  unfoldable pub window_overfit_flags : F → F → F → List String
  window_overfit_flags validation_return test_return benchmark_return =
      let zero = zero_point rt in
      overfit_flag_if (rt.lt zero validation_return && rt.le test_return zero)
        "validation_positive_test_nonpositive"
      ++ overfit_flag_if (rt.lt test_return benchmark_return) "test_underperforms_benchmark"
      ++ overfit_flag_if (rt.lt (rt.dec 5 2) (rt.sub validation_return test_return))
          "validation_test_gap_large"

  unfoldable pub window_of :
      ℕ × ℕ
      → ℕ × ℕ
      → ℕ × ℕ
      → ℕ × (ℕ × ℕ)
      → BacktestResult F
      → BacktestResult F
      → WalkForwardWindow F
  unfolding build_window_id window_overfit_flags
  window_of (train_start, train_end) (validation_start, validation_end) (test_start, test_end)
        (train_count, (validation_count, test_count)) validation_result test_result =
      record {
        window_id =
            build_window_id rt train_start validation_start test_start validation_result.result_id
              test_result.result_id;
        train_start = train_start;
        train_end = train_end;
        validation_start = validation_start;
        validation_end = validation_end;
        test_start = test_start;
        test_end = test_end;
        train_candle_count = train_count;
        validation_candle_count = validation_count;
        test_candle_count = test_count;
        validation_backtest_result_id = validation_result.result_id;
        test_backtest_result_id = test_result.result_id;
        validation_return = validation_result.strategy_return;
        test_return = test_result.strategy_return;
        benchmark_return = test_result.benchmark_return;
        excess_return = rt.sub test_result.strategy_return test_result.benchmark_return;
        overfit_flags =
            window_overfit_flags validation_result.strategy_return test_result.strategy_return
              test_result.benchmark_return;
        decision_basis =
            "non-overlapping train/validation/test rolling window with paper-only backtest metrics";
      }

  unfoldable pub evaluate_window :
      WalkForwardRequest F
      → List (MarketCandleRecord F)
      → ℕ
      → ArtifactRepository F
      → Result (WalkForwardWindow F) × ArtifactRepository F
  unfolding window_of run_backtest
  evaluate_window r candles offset repository =
      let train = train_of r candles offset in
      let validation = validation_of r candles offset in
      let test = test_of r candles offset in
      follow (bounds_of validation, repository)
        (λ validation_bounds repository.
          follow (run_backtest rt (request_within r validation_bounds) repository)
            (λ validation_run repository.
              follow (bounds_of test, repository)
                (λ test_bounds repository.
                  follow (run_backtest rt (request_within r test_bounds) repository)
                    (λ test_run repository.
                      follow (bounds_of train, repository)
                        (λ train_bounds repository. (
                          ok (
                              window_of train_bounds validation_bounds test_bounds
                                (length train, (length validation, length test))
                                validation_run.result test_run.result),
                          repository,
                        ))))))

  -- `while offset + required_candles <= len(candles)`, on fuel
  unfoldable pub walk :
      WalkForwardRequest F
      → List (MarketCandleRecord F)
      → ℕ
      → ℕ
      → List (WalkForwardWindow F)
      → List String
      → ArtifactRepository F
      → Option (Result (List (WalkForwardWindow F) × List String) × ArtifactRepository F)
  unfolding evaluate_window
  walk r candles zero offset windows ids repository = none
  walk r candles (suc fuel) offset windows ids repository =
      elim (leb (offset + required_candles r) (length candles)) [
        | false ↦ some (ok (windows, ids), repository)
        | true ↦
            let (outcome, after) = evaluate_window r candles offset repository in
            elim outcome [
              | err why ↦ some (err why, after)
              | ok window ↦
                  walk r candles fuel (offset + r.step_size) (windows ++ window ∷ [])
                    (ids
                      ++ window.validation_backtest_result_id ∷ window.test_backtest_result_id ∷ [])
                    after
            ]
      ]
