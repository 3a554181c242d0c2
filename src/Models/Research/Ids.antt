-- ===== src/Models/Research/Ids.antt =====
-- models.py: the `build_id` of backtests and walk-forward validations.
use paper_forecast_loop.Prelude.{ℕ, String, Option, none, some, List, [], ◌∷◌}
use paper_forecast_loop.Prelude.Text.{sorted}
use paper_forecast_loop.Runtime.{Runtime, stable_artifact_id, text, integer, number, texts, Dict}

module _ {F : Type 0} where
  abbrev context_entry : Option String → Dict F
  context_entry none = []
  context_entry (some context) = ("id_context", text context) ∷ []

module _ {F : Type 0} (rt : Runtime F) where
  unfoldable pub build_candle_id : String → ℕ → String → String
  unfolding stable_artifact_id
  build_candle_id symbol timestamp source = stable_artifact_id rt "market-candle" (
      ("symbol", text symbol)
      ∷ ("timestamp", text (rt.isoformat timestamp))
      ∷ ("source", text source)
      ∷ [])

  unfoldable pub build_backtest_id :
      String → ℕ → ℕ → String → F → F → F → ℕ → List String → Option String → String
  unfolding stable_artifact_id
  build_backtest_id symbol start end strategy_name initial_cash fee_bps slippage_bps
        moving_average_window candle_ids id_context =
      stable_artifact_id rt "backtest-run" (
        ("symbol", text symbol)
        ∷ ("start", text (rt.isoformat start))
        ∷ ("end", text (rt.isoformat end))
        ∷ ("strategy_name", text strategy_name)
        ∷ ("initial_cash", number (rt.round initial_cash 8))
        ∷ ("fee_bps", number (rt.round fee_bps 8))
        ∷ ("slippage_bps", number (rt.round slippage_bps 8))
        ∷ ("moving_average_window", integer moving_average_window)
        ∷ ("candle_ids", texts (sorted candle_ids))
        ∷ context_entry id_context)

  unfoldable pub build_backtest_result_id : String → F → ℕ → F → String
  unfolding stable_artifact_id
  build_backtest_result_id backtest_id final_equity trade_count strategy_return =
      stable_artifact_id rt "backtest-result" (
        ("backtest_id", text backtest_id)
        ∷ ("final_equity", number (rt.round final_equity 8))
        ∷ ("trade_count", integer trade_count)
        ∷ ("strategy_return", number (rt.round strategy_return 8))
        ∷ [])

  unfoldable pub build_window_id : ℕ → ℕ → ℕ → String → String → String
  unfolding stable_artifact_id
  build_window_id train_start validation_start test_start validation_backtest_result_id
        test_backtest_result_id =
      stable_artifact_id rt "walk-forward-window" (
        ("train_start", text (rt.isoformat train_start))
        ∷ ("validation_start", text (rt.isoformat validation_start))
        ∷ ("test_start", text (rt.isoformat test_start))
        ∷ ("validation_backtest_result_id", text validation_backtest_result_id)
        ∷ ("test_backtest_result_id", text test_backtest_result_id)
        ∷ [])

  unfoldable pub build_validation_id : String → ℕ → ℕ → ℕ → ℕ → ℕ → ℕ → ℕ → List String → String
  unfolding stable_artifact_id
  build_validation_id symbol start end train_size validation_size test_size step_size
        moving_average_window backtest_result_ids =
      stable_artifact_id rt "walk-forward" (
        ("symbol", text symbol)
        ∷ ("start", text (rt.isoformat start))
        ∷ ("end", text (rt.isoformat end))
        ∷ ("train_size", integer train_size)
        ∷ ("validation_size", integer validation_size)
        ∷ ("test_size", integer test_size)
        ∷ ("step_size", integer step_size)
        ∷ ("moving_average_window", integer moving_average_window)
        ∷ ("backtest_result_ids", texts (sorted backtest_result_ids))
        ∷ [])
