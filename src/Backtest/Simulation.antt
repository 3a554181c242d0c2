-- ===== src/Backtest/Simulation.antt =====
-- `_simulate` of backtest.py: the loop over the candles, and the metrics of its outcome.
use paper_forecast_loop.Prelude.{
  ℕ, zero, suc, ◌+◌, ◌-◌, Bool, true, false, ◌&&◌, Option, none, some, List, [], ◌∷◌, ◌++◌,
  if◌then◌else◌, ltb, map, keep, length, is_empty, take, drop, get_elem?, Result, ok, err, ◌>>=◌,
  ends,
}
use paper_forecast_loop.Runtime.{Runtime, zero_point, max_of, Dict, text, number}
use paper_forecast_loop.Models.Research.{MarketCandleRecord, BacktestRun, BacktestResult}
use paper_forecast_loop.Models.Research.Ids.{build_backtest_result_id}
use paper_forecast_loop.Candles.{price_of}

-- The variables of the loop. `equities` are the values under the key "equity" of the curve's points.
pub record Simulation (F : Type 0) : Type 0 where
  pub cash : F
  pub quantity : F
  pub entry_cost : F
  pub trade_count : ℕ
  pub total_turnover : F
  pub closed_trade_pnls : List F
  pub equity_curve : List (Dict F)
  pub equities : List F
  pub returns : List F
  pub previous_equity : F

-- `xs[start:stop]`, with `start` at most `stop`
abbrev pub slice {ℓ} : {A : Type ℓ} → ℕ → ℕ → List A → List A
slice start stop xs = take (stop - start) (drop start xs)

module _ {F : Type 0} (rt : Runtime F) where
  abbrev is_falsy : F → Bool
  is_falsy x = rt.le x (zero_point rt) && rt.le (zero_point rt) x

  abbrev pub start_of : BacktestRun F → Simulation F
  start_of run = record {
    cash = run.initial_cash;
    quantity = zero_point rt;
    entry_cost = zero_point rt;
    trade_count = 0;
    total_turnover = zero_point rt;
    closed_trade_pnls = [];
    equity_curve = [];
    equities = [];
    returns = [];
    previous_equity = run.initial_cash;
  }

  abbrev at_least_average : List F → Option (MarketCandleRecord F) → Option Bool
  at_least_average [] signal_candle = none
  at_least_average (x ∷ history) none = none
  at_least_average (x ∷ history) (some signal_candle) =
      some (rt.le (rt.mean (x ∷ history)) (price_of signal_candle))

  -- `target_long` at an index; the signal candle is the one before it
  unfoldable pub target_long : List (MarketCandleRecord F) → ℕ → ℕ → Option Bool
  target_long candles moving_average_window zero = none
  target_long candles moving_average_window (suc signal_index) =
      at_least_average
        (map price_of (slice (signal_index - moving_average_window) signal_index candles))
        (get_elem? candles signal_index)

  abbrev buy : F → F → F → Simulation F → Simulation F
  buy fee_rate slippage_rate price s =
      let buy_price = rt.mul price (rt.add (rt.dec 1 0) slippage_rate) in
      let gross_value = rt.div s.cash (rt.add (rt.dec 1 0) fee_rate) in
      let fee = rt.mul gross_value fee_rate in
      let cash = rt.sub s.cash (rt.add gross_value fee) in
      record s {
        quantity = rt.div gross_value buy_price;
        cash = if rt.lt (rt.abs cash) (rt.dec 1 9) then zero_point rt else cash;
        entry_cost = rt.add gross_value fee;
        total_turnover = rt.add s.total_turnover gross_value;
        trade_count = s.trade_count + 1;
      }

  abbrev sell : F → F → F → Simulation F → Simulation F
  sell fee_rate slippage_rate price s =
      let sell_price = rt.mul price (rt.sub (rt.dec 1 0) slippage_rate) in
      let gross_value = rt.mul s.quantity sell_price in
      let fee = rt.mul gross_value fee_rate in
      record s {
        cash = rt.add s.cash (rt.sub gross_value fee);
        closed_trade_pnls =
            s.closed_trade_pnls ++ rt.sub (rt.sub gross_value fee) s.entry_cost ∷ [];
        total_turnover = rt.add s.total_turnover gross_value;
        quantity = zero_point rt;
        entry_cost = zero_point rt;
        trade_count = s.trade_count + 1;
      }

  unfoldable pub trade : F → F → F → Option Bool → Simulation F → Simulation F
  trade fee_rate slippage_rate price none s = s
  trade fee_rate slippage_rate price (some true) s =
      if is_falsy s.quantity then buy fee_rate slippage_rate price s else s
  trade fee_rate slippage_rate price (some false) s =
      if rt.lt (zero_point rt) s.quantity then sell fee_rate slippage_rate price s else s

  abbrev returns_with : ℕ → F → List F → List F
  returns_with zero period_return returns = returns
  returns_with (suc _) period_return returns = returns ++ period_return ∷ []

  abbrev pub point_of : MarketCandleRecord F → Simulation F → Dict F
  point_of candle s =
      let price = price_of candle in
      ("timestamp", text (rt.isoformat candle.timestamp))
      ∷ ("price", number price)
      ∷ ("cash", number s.cash)
      ∷ ("quantity", number s.quantity)
      ∷ ("equity", number (rt.add s.cash (rt.mul s.quantity price)))
      ∷ ("position_value", number (rt.mul s.quantity price))
      ∷ []

  -- the mark to market at the end of a round
  unfoldable pub marked_to_market : ℕ → MarketCandleRecord F → Simulation F → Simulation F
  marked_to_market index candle s =
      let price = price_of candle in
      let equity = rt.add s.cash (rt.mul s.quantity price) in
      let period_return =
        if is_falsy s.previous_equity
        then zero_point rt
        else rt.sub (rt.div equity s.previous_equity) (rt.dec 1 0) in
      record s {
        returns = returns_with index period_return s.returns;
        previous_equity = equity;
        equities = s.equities ++ equity ∷ [];
        equity_curve = s.equity_curve ++ point_of candle s ∷ [];
      }

  module _ (fee_rate slippage_rate : F) (moving_average_window : ℕ) where
    unfoldable pub round_of :
        List (MarketCandleRecord F)
        → ℕ
        → MarketCandleRecord F
        → Simulation F
        → Result (Simulation F)
    unfolding target_long trade marked_to_market
    round_of candles index candle s =
        let price = price_of candle in
        if rt.le price (zero_point rt)
        then err "backtest candle price must be positive"
        else ok (
            marked_to_market index candle (
              trade fee_rate slippage_rate price (target_long candles moving_average_window index)
                s))

    -- `for index, candle in enumerate(candles)`, from an index on
    unfoldable pub rounds :
        List (MarketCandleRecord F)
        → ℕ
        → List (MarketCandleRecord F)
        → Simulation F
        → Result (Simulation F)
    unfolding round_of
    rounds candles index [] s = ok s
    rounds candles index (candle ∷ rest) s =
        round_of candles index candle s >>= rounds candles (suc index) rest

  unfoldable pub max_drawdown : F → F → List F → F
  max_drawdown peak worst [] = worst
  max_drawdown peak worst (equity ∷ equities) =
      let peak = max_of rt peak equity in
      max_drawdown peak
        (if is_falsy peak then worst else max_of rt worst (rt.div (rt.sub peak equity) peak))
        equities

  unfoldable pub sharpe : List F → Option F
  sharpe returns =
      let stddev = rt.pstdev returns in
      if ltb (length returns) 2
      then none
      else if is_falsy stddev
      then none
      else some (rt.mul (rt.div (rt.mean returns) stddev) (rt.sqrt (rt.of_nat (length returns))))

  unfoldable pub win_rate : List F → Option F
  win_rate closed_trade_pnls =
      if is_empty closed_trade_pnls
      then none
      else some (
          rt.div (rt.of_nat (length (keep (rt.lt (zero_point rt)) closed_trade_pnls)))
            (rt.of_nat (length closed_trade_pnls)))

  -- The result of a finished loop, from the first and last equity and the first and last candle.
  unfoldable pub result_of :
      BacktestRun F
      → ℕ
      → Simulation F
      → F
      → F
      → MarketCandleRecord F
      → MarketCandleRecord F
      → BacktestResult F
  unfolding max_drawdown sharpe win_rate build_backtest_result_id
  result_of run created_at s first_equity final_equity first_candle last_candle =
      let strategy_return = rt.sub (rt.div final_equity run.initial_cash) (rt.dec 1 0) in
      record {
        result_id =
            build_backtest_result_id rt run.backtest_id final_equity s.trade_count strategy_return;
        backtest_id = run.backtest_id;
        created_at = created_at;
        symbol = run.symbol;
        start = run.start;
        end = run.end;
        initial_cash = run.initial_cash;
        final_equity = final_equity;
        strategy_return = strategy_return;
        benchmark_return =
            rt.sub (rt.div (price_of last_candle) (price_of first_candle)) (rt.dec 1 0);
        max_drawdown = max_drawdown first_equity (zero_point rt) s.equities;
        sharpe = sharpe s.returns;
        turnover =
            if is_falsy run.initial_cash
            then zero_point rt
            else rt.div s.total_turnover run.initial_cash;
        win_rate = win_rate s.closed_trade_pnls;
        trade_count = s.trade_count;
        equity_curve = s.equity_curve;
        decision_basis =
            "metrics include fee/slippage, buy-and-hold benchmark return, max drawdown, Sharpe, turnover, and win rate";
      }

  -- An empty list of candles ends in an `IndexError`.
  abbrev pub measured_at :
      BacktestRun F
      → ℕ
      → Simulation F
      → Option (F × F)
      → Option (MarketCandleRecord F × MarketCandleRecord F)
      → Result (BacktestResult F)
  measured_at run created_at s (some (first_equity, final_equity))
        (some (first_candle, last_candle)) =
      ok (result_of run created_at s first_equity final_equity first_candle last_candle)
  measured_at run created_at s (some _) none = err "list index out of range"
  measured_at run created_at s none candles = err "list index out of range"

  abbrev pub measured :
      BacktestRun F → ℕ → List (MarketCandleRecord F) → Simulation F → Result (BacktestResult F)
  measured run created_at candles s = measured_at run created_at s (ends s.equities) (ends candles)

  unfoldable pub simulate :
      BacktestRun F → ℕ → List (MarketCandleRecord F) → ℕ → Result (BacktestResult F)
  unfolding rounds result_of
  simulate run created_at candles moving_average_window =
      let fee_rate = rt.div run.fee_bps (rt.dec 10000 0) in
      let slippage_rate = rt.div run.slippage_bps (rt.dec 10000 0) in
      rounds fee_rate slippage_rate moving_average_window candles 0 candles (start_of run)
      >>= measured run created_at candles
