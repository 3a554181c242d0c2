-- ===== src/Backtest.antt =====
-- backtest.py: the moving-average backtest over stored candles. The storage directory exists and the
-- times are timezone-aware (Runtime/Defs), so the checks of these two never fail here.
pub mod Simulation
pub mod NoLookAhead
use paper_forecast_loop.Prelude.{
  ℕ, String, Bool, false, Option, none, some, List, [], ◌∷◌, ◌++◌, ◌==◌, if◌then◌else◌, ltb, eqb,
  map, length, is_empty, Result, ok, err,
}
use paper_forecast_loop.Prelude.Text.{concat, join}
use paper_forecast_loop.Runtime.{Runtime, zero_point}
use paper_forecast_loop.Models.Research.{MarketCandleRecord, BacktestRun, BacktestResult}
use paper_forecast_loop.Models.Research.Ids.{build_backtest_id, build_backtest_result_id}
use paper_forecast_loop.Storage.{ArtifactRepository, save_backtest_run, save_backtest_result}
use paper_forecast_loop.Candles.{select_candles, repeated_timestamp}
use Simulation.{simulate}
use paper_forecast_loop.Prelude.{sorted_by}

pub record BacktestRequest (F : Type 0) : Type 0 where
  pub symbol : String
  pub start : ℕ
  pub end : ℕ
  pub created_at : ℕ
  pub initial_cash : F
  pub fee_bps : F
  pub slippage_bps : F
  pub moving_average_window : ℕ
  pub as_of : Option ℕ
  pub id_context : Option String

pub record BacktestEngineResult (F : Type 0) : Type 0 where
  pub run : BacktestRun F
  pub result : BacktestResult F

-- `value > limit` for an optional limit
abbrev pub is_after : ℕ → Option ℕ → Bool
is_after value none = false
is_after value (some limit) = ltb limit value

-- `[text] if text else []`
abbrev context_parts : Option String → List String
context_parts none = []
context_parts (some s) = if s == "" then [] else s ∷ []

-- `f"; id_context={id_context}" if id_context else ""`
abbrev pub context_suffix : Option String → String
context_suffix none = ""
context_suffix (some s) = if s == "" then "" else concat ("; id_context=" ∷ s ∷ [])

module _ {F : Type 0} (rt : Runtime F) where
  abbrev as_of_parts : Option ℕ → List String
  as_of_parts none = []
  as_of_parts (some t) = concat ("as_of=" ∷ rt.isoformat t ∷ []) ∷ []

  unfoldable pub combined_id_context : Option String → Option ℕ → Option String
  combined_id_context id_context as_of =
      let joined = join ";" (context_parts id_context ++ as_of_parts as_of) in
      if joined == "" then none else some joined

  -- `f"; as_of={as_of.isoformat()}" if as_of else ""`
  abbrev pub as_of_suffix : Option ℕ → String
  as_of_suffix none = ""
  as_of_suffix (some t) = concat ("; as_of=" ∷ rt.isoformat t ∷ [])

  -- The text of the `ValueError`, if one is raised.
  unfoldable pub invalid_inputs : BacktestRequest F → Option String
  invalid_inputs r =
      if ltb r.end r.start
      then some "backtest start must be <= end"
      else if is_after r.end r.as_of
      then some "backtest end must be <= as_of"
      else if rt.le r.initial_cash (zero_point rt)
      then some "initial_cash must be positive"
      else if rt.lt r.fee_bps (zero_point rt)
      then some "fee_bps must be non-negative"
      else if rt.lt r.slippage_bps (zero_point rt)
      then some "slippage_bps must be non-negative"
      else if eqb r.moving_average_window 0
      then some "moving_average_window must be positive"
      else none

  unfoldable pub run_for : BacktestRequest F → List (MarketCandleRecord F) → BacktestRun F
  unfolding combined_id_context build_backtest_id
  run_for r candles =
      let candle_ids = map (λ c. c.candle_id) candles in
      record {
        backtest_id =
            build_backtest_id rt r.symbol r.start r.end "moving_average_trend" r.initial_cash
              r.fee_bps r.slippage_bps r.moving_average_window candle_ids
              (combined_id_context r.id_context r.as_of);
        created_at = r.created_at;
        symbol = r.symbol;
        start = r.start;
        end = r.end;
        strategy_name = "moving_average_trend";
        initial_cash = r.initial_cash;
        fee_bps = r.fee_bps;
        slippage_bps = r.slippage_bps;
        moving_average_window = r.moving_average_window;
        candle_ids = candle_ids;
        decision_basis = concat (
            "paper-only moving-average trend backtest using stored candles; "
            ∷ "target is 100% long when the prior candle close is above its prior moving average, otherwise cash"
            ∷ as_of_suffix r.as_of
            ∷ context_suffix r.id_context
            ∷ []);
      }

  -- The candles of the run, in the order of their timestamps, or the `ValueError` that they raise.
  unfoldable pub candles_for :
      BacktestRequest F → List (MarketCandleRecord F) → Result (List (MarketCandleRecord F))
  unfolding select_candles repeated_timestamp
  candles_for r stored =
      let candles =
        sorted_by (λ c. c.timestamp) (select_candles stored r.symbol r.start r.end r.as_of) in
      if ltb (length candles) 2
      then err (concat ("backtest requires at least 2 candles for " ∷ r.symbol ∷ []))
      else elim (repeated_timestamp candles) [
        | none ↦ ok candles
        | some timestamp ↦ err (
            concat (
              "backtest candles must have unique, strictly increasing timestamps "
              ∷ "for the selected symbol; duplicate or non-increasing timestamp: "
              ∷ rt.isoformat timestamp
              ∷ []))
      ]

  abbrev store :
      BacktestRun F
      → ArtifactRepository F
      → Result (BacktestResult F)
      → Result (BacktestEngineResult F) × ArtifactRepository F
  store run repository (err why) = (err why, repository)
  store run repository (ok result) = (
    ok (record { run = run; result = result }),
    save_backtest_result result (save_backtest_run run repository),
  )

  abbrev simulated :
      BacktestRequest F
      → ArtifactRepository F
      → Result (List (MarketCandleRecord F))
      → Result (BacktestEngineResult F) × ArtifactRepository F
  simulated r repository (err why) = (err why, repository)
  simulated r repository (ok candles) =
      let run = run_for r candles in
      store run repository (simulate rt run r.created_at candles r.moving_average_window)

  unfoldable pub run_backtest :
      BacktestRequest F
      → ArtifactRepository F
      → Result (BacktestEngineResult F) × ArtifactRepository F
  unfolding invalid_inputs candles_for
  run_backtest r repository = elim (invalid_inputs r) [
    | some why ↦ (err why, repository)
    | none ↦ simulated r repository (candles_for r repository.market_candles)
  ]
