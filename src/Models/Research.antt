-- ===== src/Models/Research.antt =====
-- models.py: forecasts, scores, reviews, and the artifacts of the research runs.
pub mod Ids
use paper_forecast_loop.Prelude.{ℕ, String, Bool, Option, List}
use paper_forecast_loop.Runtime.{Dict}

pub record Forecast (F : Type 0) : Type 0 where
  pub forecast_id : String
  pub symbol : String
  pub created_at : ℕ
  pub anchor_time : ℕ
  pub target_window_start : ℕ
  pub target_window_end : ℕ
  pub candle_interval_minutes : ℕ
  pub expected_candle_count : ℕ
  pub status : String
  pub status_reason : String
  pub predicted_regime : Option String
  pub confidence : Option F
  pub provider_data_through : Option ℕ
  pub observed_candle_count : ℕ

pub record ForecastScore (F : Type 0) : Type 0 where
  pub score_id : String
  pub forecast_id : String
  pub scored_at : ℕ
  pub predicted_regime : String
  pub actual_regime : String
  pub score : F
  pub target_window_start : ℕ
  pub target_window_end : ℕ
  pub candle_interval_minutes : ℕ
  pub expected_candle_count : ℕ
  pub observed_candle_count : ℕ
  pub provider_data_through : ℕ
  pub scoring_basis : String

pub record Review (F : Type 0) : Type 0 where
  pub review_id : String
  pub created_at : ℕ
  pub score_ids : List String
  pub forecast_ids : List String
  pub average_score : F
  pub threshold_used : F
  pub decision_basis : String
  pub summary : String
  pub proposal_recommended : Bool
  pub proposal_reason : String

pub record BaselineEvaluation (F : Type 0) : Type 0 where
  pub baseline_id : String
  pub created_at : ℕ
  pub symbol : String
  pub sample_size : ℕ
  pub directional_accuracy : Option F
  pub baseline_accuracy : Option F
  pub model_edge : Option F
  pub recent_score : Option F
  pub evidence_grade : String
  pub forecast_ids : List String
  pub score_ids : List String
  pub decision_basis : String
  pub baseline_results : List (Dict F)

pub record MarketCandleRecord (F : Type 0) : Type 0 where
  pub candle_id : String
  pub symbol : String
  pub timestamp : ℕ
  pub open_price : F
  pub high : F
  pub low : F
  pub close : F
  pub volume : F
  pub source : String
  pub imported_at : ℕ
  pub adjusted_close : Option F

pub record BacktestRun (F : Type 0) : Type 0 where
  pub backtest_id : String
  pub created_at : ℕ
  pub symbol : String
  pub start : ℕ
  pub end : ℕ
  pub strategy_name : String
  pub initial_cash : F
  pub fee_bps : F
  pub slippage_bps : F
  pub moving_average_window : ℕ
  pub candle_ids : List String
  pub decision_basis : String

pub record BacktestResult (F : Type 0) : Type 0 where
  pub result_id : String
  pub backtest_id : String
  pub created_at : ℕ
  pub symbol : String
  pub start : ℕ
  pub end : ℕ
  pub initial_cash : F
  pub final_equity : F
  pub strategy_return : F
  pub benchmark_return : F
  pub max_drawdown : F
  pub sharpe : Option F
  pub turnover : F
  pub win_rate : Option F
  pub trade_count : ℕ
  pub equity_curve : List (Dict F)
  pub decision_basis : String

pub record WalkForwardWindow (F : Type 0) : Type 0 where
  pub window_id : String
  pub train_start : ℕ
  pub train_end : ℕ
  pub validation_start : ℕ
  pub validation_end : ℕ
  pub test_start : ℕ
  pub test_end : ℕ
  pub train_candle_count : ℕ
  pub validation_candle_count : ℕ
  pub test_candle_count : ℕ
  pub validation_backtest_result_id : String
  pub test_backtest_result_id : String
  pub validation_return : F
  pub test_return : F
  pub benchmark_return : F
  pub excess_return : F
  pub overfit_flags : List String
  pub decision_basis : String

pub record WalkForwardValidation (F : Type 0) : Type 0 where
  pub validation_id : String
  pub created_at : ℕ
  pub symbol : String
  pub start : ℕ
  pub end : ℕ
  pub strategy_name : String
  pub train_size : ℕ
  pub validation_size : ℕ
  pub test_size : ℕ
  pub step_size : ℕ
  pub initial_cash : F
  pub fee_bps : F
  pub slippage_bps : F
  pub moving_average_window : ℕ
  pub window_count : ℕ
  pub average_validation_return : F
  pub average_test_return : F
  pub average_benchmark_return : F
  pub average_excess_return : F
  pub test_win_rate : F
  pub overfit_window_count : ℕ
  pub overfit_risk_flags : List String
  pub backtest_result_ids : List String
  pub windows : List (WalkForwardWindow F)
  pub decision_basis : String

pub record EventEdgeEvaluation (F : Type 0) : Type 0 where
  pub evaluation_id : String
  pub event_family : String
  pub event_type : String
  pub symbol : String
  pub created_at : ℕ
  pub split : String
  pub horizon_hours : ℕ
  pub sample_n : ℕ
  pub average_forward_return : Option F
  pub average_benchmark_return : Option F
  pub average_excess_return_after_costs : Option F
  pub hit_rate : Option F
  pub max_adverse_excursion_p50 : Option F
  pub max_adverse_excursion_p90 : Option F
  pub max_drawdown_if_traded : Option F
  pub turnover : Option F
  pub estimated_cost_bps : F
  pub dsr : Option F
  pub white_rc_p : Option F
  pub stability_score : Option F
  pub passed : Bool
  pub blocked_reason : Option String
  pub flags : List String
  pub input_event_ids : List String
  pub input_reaction_check_ids : List String
  pub input_candle_ids : List String
  pub input_watermark : Option ℕ
