-- ===== src/WalkForward.antt =====
-- walk_forward.py: rolling train, validation and test windows over the candles of a symbol. As in
-- Backtest, the storage directory exists and the times are timezone-aware.
pub mod Windows
pub mod Rolling
pub mod Validated
use paper_forecast_loop.Prelude.{
  ℕ, ◌+◌, String, Bool, not, ◌&&◌, Option, none, some, List, [], ◌∷◌, ◌++◌, if◌then◌else◌, ltb, eqb,
  suc, map, keep, length, is_empty, Result, ok, err, sorted_by,
}
use paper_forecast_loop.Prelude.Text.{concat, sorted_set}
use paper_forecast_loop.Runtime.{Runtime, zero_point}
use paper_forecast_loop.Models.Research.{
  MarketCandleRecord, WalkForwardWindow, WalkForwardValidation,
}
use paper_forecast_loop.Models.Research.Ids.{build_validation_id}
use paper_forecast_loop.Storage.{ArtifactRepository, save_walk_forward_validation}
use paper_forecast_loop.Candles.{select_candles, repeated_timestamp}
use paper_forecast_loop.Backtest.{is_after, as_of_suffix, context_suffix}
use Windows.{WalkForwardRequest, overfit_flag_if, required_candles, walk}

module _ {F : Type 0} (rt : Runtime F) where
  -- The text of the `ValueError`, if one is raised.
  unfoldable pub invalid_inputs : WalkForwardRequest F → Option String
  invalid_inputs r =
      if ltb r.end r.start
      then some "walk-forward start must be <= end"
      else if is_after r.end r.as_of
      then some "walk-forward end must be <= as_of"
      else if eqb r.train_size 0
      then some "train_size must be positive"
      else if ltb r.validation_size 2
      then some "validation_size must be at least 2"
      else if ltb r.test_size 2
      then some "test_size must be at least 2"
      else if eqb r.step_size 0
      then some "step_size must be positive"
      else if rt.le r.initial_cash (zero_point rt)
      then some "initial_cash must be positive"
      else if rt.lt r.fee_bps (zero_point rt)
      then some "fee_bps must be non-negative"
      else if rt.lt r.slippage_bps (zero_point rt)
      then some "slippage_bps must be non-negative"
      else if eqb r.moving_average_window 0
      then some "moving_average_window must be positive"
      else none

  unfoldable pub candles_for :
      WalkForwardRequest F → List (MarketCandleRecord F) → Result (List (MarketCandleRecord F))
  unfolding select_candles repeated_timestamp
  candles_for r stored =
      let candles =
        sorted_by (λ c. c.timestamp) (select_candles stored r.symbol r.start r.end r.as_of) in
      if ltb (length candles) (required_candles r)
      then err (
          concat (
            "walk-forward requires at least "
            ∷ rt.show_nat (required_candles r)
            ∷ " candles for "
            ∷ r.symbol
            ∷ "; found "
            ∷ rt.show_nat (length candles)
            ∷ []))
      else elim (repeated_timestamp candles) [
        | none ↦ ok candles
        | some timestamp ↦ err (
            concat (
              "walk-forward candles must have unique, strictly increasing timestamps "
              ∷ "for the selected symbol; duplicate or non-increasing timestamp: "
              ∷ rt.isoformat timestamp
              ∷ []))
      ]

  abbrev is_flagged : WalkForwardWindow F → Bool
  is_flagged window = not (is_empty window.overfit_flags)

  abbrev flags_of : List (WalkForwardWindow F) → List String
  flags_of [] = []
  flags_of (window ∷ windows) = window.overfit_flags ++ flags_of windows

  unfoldable pub aggregate_overfit_flags : List (WalkForwardWindow F) → F → F → F → List String
  aggregate_overfit_flags windows average_validation_return average_test_return
        average_benchmark_return =
      let zero = zero_point rt in
      sorted_set (
        flags_of windows
        ++ overfit_flag_if
            (rt.le (rt.dec 5 1)
              (rt.div (rt.of_nat (length (keep is_flagged windows))) (rt.of_nat (length windows))))
            "majority_windows_flagged"
        ++ overfit_flag_if (rt.lt zero average_validation_return && rt.le average_test_return zero)
            "aggregate_validation_positive_test_nonpositive"
        ++ overfit_flag_if (rt.lt average_test_return average_benchmark_return)
            "aggregate_underperforms_benchmark")

  unfoldable pub validation_for :
      WalkForwardRequest F → List (WalkForwardWindow F) → List String → WalkForwardValidation F
  unfolding aggregate_overfit_flags build_validation_id
  validation_for r windows backtest_result_ids =
      let test_returns = map (λ w. w.test_return) windows in
      let average_validation_return = rt.mean (map (λ w. w.validation_return) windows) in
      let average_test_return = rt.mean test_returns in
      let average_benchmark_return = rt.mean (map (λ w. w.benchmark_return) windows) in
      record {
        validation_id =
            build_validation_id rt r.symbol r.start r.end r.train_size r.validation_size r.test_size
              r.step_size r.moving_average_window backtest_result_ids;
        created_at = r.created_at;
        symbol = r.symbol;
        start = r.start;
        end = r.end;
        strategy_name = "moving_average_trend";
        train_size = r.train_size;
        validation_size = r.validation_size;
        test_size = r.test_size;
        step_size = r.step_size;
        initial_cash = r.initial_cash;
        fee_bps = r.fee_bps;
        slippage_bps = r.slippage_bps;
        moving_average_window = r.moving_average_window;
        window_count = length windows;
        average_validation_return = average_validation_return;
        average_test_return = average_test_return;
        average_benchmark_return = average_benchmark_return;
        average_excess_return = rt.mean (map (λ w. w.excess_return) windows);
        test_win_rate =
            rt.div (rt.of_nat (length (keep (rt.lt (zero_point rt)) test_returns)))
              (rt.of_nat (length test_returns));
        overfit_window_count = length (keep is_flagged windows);
        overfit_risk_flags =
            aggregate_overfit_flags windows average_validation_return average_test_return
              average_benchmark_return;
        backtest_result_ids = backtest_result_ids;
        windows = windows;
        decision_basis = concat (
            "rolling walk-forward validation; train window is recorded as boundary context, "
            ∷ "validation and test windows are evaluated with paper-only backtests"
            ∷ as_of_suffix rt r.as_of
            ∷ context_suffix r.id_context
            ∷ []);
      }

  -- What follows the loop.
  abbrev pub concluded :
      WalkForwardRequest F
      → Option (Result (List (WalkForwardWindow F) × List String) × ArtifactRepository F)
      → Option (Result (WalkForwardValidation F) × ArtifactRepository F)
  concluded r none = none
  concluded r (some (err why, repository)) = some (err why, repository)
  concluded r (some (ok (windows, backtest_result_ids), repository)) =
      let validation = validation_for r windows backtest_result_ids in
      some (ok validation, save_walk_forward_validation validation repository)

  abbrev pub walked :
      WalkForwardRequest F
      → ArtifactRepository F
      → Result (List (MarketCandleRecord F))
      → Option (Result (WalkForwardValidation F) × ArtifactRepository F)
  walked r repository (err why) = some (err why, repository)
  walked r repository (ok candles) =
      concluded r (walk rt r candles (suc (length candles)) 0 [] [] repository)

  -- `none` is a loop that has not ended when its fuel is spent.
  unfoldable pub run_walk_forward_validation :
      WalkForwardRequest F
      → ArtifactRepository F
      → Option (Result (WalkForwardValidation F) × ArtifactRepository F)
  unfolding invalid_inputs candles_for walk validation_for
  run_walk_forward_validation r repository = elim (invalid_inputs r) [
    | some why ↦ some (err why, repository)
    | none ↦ walked r repository (candles_for r repository.market_candles)
  ]
