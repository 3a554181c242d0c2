-- ===== src/Backtest/NoLookAhead.antt =====
-- The simulation of backtest.py sees no candle after the one it stands at.
use paper_forecast_loop.Prelude.{
  ℕ, zero, suc, ◌+◌, ◌-◌, ◌≤◌, ◌<◌, ◌≡◌, refl, ap, sym, ◌∙◌, arith, Option, some, List, [], ◌∷◌,
  ◌++◌, length, length-append, take, drop, get_elem?, ok, inl, inr, ends, ok_injective, ok≢err,
  bind_congr, bind_assoc, bind_ok, Bool, true, false, none, Bool-cases, ◌>>=◌,
}
use mathlib.Core.List.{append-nil, append_assoc}
use paper_forecast_loop.Candles.{price_of}
use paper_forecast_loop.Runtime.{Runtime, Dict, zero_point}
use paper_forecast_loop.Models.Research.{MarketCandleRecord, BacktestRun, BacktestResult}
use paper_forecast_loop.Backtest.Simulation.{
  Simulation, slice, start_of, target_long, trade, marked_to_market, point_of, round_of, rounds,
  result_of, measured, measured_at, simulate,
}

module _ {ℓ} {A : Type ℓ} where
  take-drop-append :
      (i n : ℕ) (xs ys : List A)
      → i + n ≤ length xs
      → take n (drop i (xs ++ ys)) ≡ take n (drop i xs)
  take-drop-append zero zero xs ys h = refl
  take-drop-append zero (suc n) [] ys h = absurd (omega arith)
  take-drop-append zero (suc n) (x ∷ xs) ys h =
      ap (λ rest. x ∷ rest) (take-drop-append 0 n xs ys (omega arith))
  take-drop-append (suc i) n [] ys h = absurd (omega arith)
  take-drop-append (suc i) n (x ∷ xs) ys h = take-drop-append i n xs ys (omega arith)

  get_elem?-append :
      (i : ℕ) (xs ys : List A) → i < length xs → get_elem? (xs ++ ys) i ≡ get_elem? xs i
  get_elem?-append i [] ys h = absurd (omega arith)
  get_elem?-append zero (x ∷ xs) ys h = refl
  get_elem?-append (suc i) (x ∷ xs) ys h = get_elem?-append i xs ys (omega arith)

  take-append : (xs ys : List A) → take (length xs) (xs ++ ys) ≡ xs
  take-append [] ys = refl
  take-append (x ∷ xs) ys = ap (λ rest. x ∷ rest) (take-append xs ys)

  slice-append :
      (start stop : ℕ) (xs ys : List A)
      → start ≤ stop
      → stop ≤ length xs
      → slice start stop (xs ++ ys) ≡ slice start stop xs
  slice-append start stop xs ys h k = take-drop-append start (stop - start) xs ys (omega arith)

module _ {F : Type 0} (rt : Runtime F) where
  target_long-append :
      (xs ys : List (MarketCandleRecord F)) (w index : ℕ)
      → index ≤ length xs
      → target_long rt (xs ++ ys) w index ≡ target_long rt xs w index
  unfolding target_long
  target_long-append xs ys w zero h = refl
  target_long-append xs ys w (suc i) h =
      rw
        (
          slice-append (i - w) i xs ys (omega arith) (omega arith),
          get_elem?-append i xs ys (omega arith),
        )
        refl

  module _ (fee_rate slippage_rate : F) (w : ℕ) where
    round_of-append :
        (xs ys : List (MarketCandleRecord F)) (index : ℕ) (candle : MarketCandleRecord F)
        (s : Simulation F)
        → index ≤ length xs
        → round_of rt fee_rate slippage_rate w (xs ++ ys) index candle s
          ≡ round_of rt fee_rate slippage_rate w xs index candle s
    unfolding round_of
    round_of-append xs ys index candle s h = rw (target_long-append xs ys w index h) refl

    rounds-append :
        (xs ys : List (MarketCandleRecord F)) (index : ℕ) (rest : List (MarketCandleRecord F))
        (s : Simulation F)
        → index + length rest ≤ length xs
        → rounds rt fee_rate slippage_rate w (xs ++ ys) index rest s
          ≡ rounds rt fee_rate slippage_rate w xs index rest s
    unfolding rounds
    rounds-append xs ys index [] s h = refl
    rounds-append xs ys index (c ∷ rest) s h =
        ap (λ r. r >>= rounds rt fee_rate slippage_rate w (xs ++ ys) (suc index) rest)
          (round_of-append xs ys index c s (omega arith))
        ∙ bind_congr (round_of rt fee_rate slippage_rate w xs index c s) _ _
            (λ a. rounds-append xs ys (suc index) rest a (omega arith))

    rounds-split :
        (cs : List (MarketCandleRecord F)) (index : ℕ) (xs ys : List (MarketCandleRecord F))
        (s : Simulation F)
        → rounds rt fee_rate slippage_rate w cs index (xs ++ ys) s ≡ (
            rounds rt fee_rate slippage_rate w cs index xs s
            >>= rounds rt fee_rate slippage_rate w cs (length xs + index) ys)
    unfolding rounds
    rounds-split cs index [] ys s =
        ap (λ n. rounds rt fee_rate slippage_rate w cs n ys s) (omega arith)
    rounds-split cs index (x ∷ xs) ys s =
        bind_congr (round_of rt fee_rate slippage_rate w cs index x s) _ _ (λ a.
          rounds-split cs (suc index) xs ys a
          ∙ ap
              (λ n.
                rounds rt fee_rate slippage_rate w cs (suc index) xs a
                >>= rounds rt fee_rate slippage_rate w cs n ys)
              (omega arith))
        ∙ sym (bind_assoc (round_of rt fee_rate slippage_rate w cs index x s) _ _)

    -- The loop adds points to the curve, and keeps those that are there.
    record Extends (s after : Simulation F) (n : ℕ) : Type 0 where
      points : List (Dict F)
      points_count : length points ≡ n
      curve : after.equity_curve ≡ s.equity_curve ++ points
      equities_count : length after.equities ≡ length s.equities + n

    trade_keeps_curve :
        (price : F) (target : Option Bool) (s : Simulation F)
        → ((trade rt fee_rate slippage_rate price target s).equity_curve ≡ s.equity_curve)
          × ((trade rt fee_rate slippage_rate price target s).equities ≡ s.equities)
    unfolding trade
    trade_keeps_curve price none s = (refl, refl)
    trade_keeps_curve price (some true) s = ground arith
    trade_keeps_curve price (some false) s = ground arith

    marked_to_market-Extends :
        (index : ℕ) (c : MarketCandleRecord F) (s traded : Simulation F)
        → traded.equity_curve ≡ s.equity_curve
        → traded.equities ≡ s.equities
        → Extends s (marked_to_market rt index c traded) 1
    unfolding marked_to_market
    marked_to_market-Extends index c s traded curve equities = record {
      points = point_of rt c traded ∷ [];
      points_count = refl;
      curve = ap (λ l. l ++ point_of rt c traded ∷ []) curve;
      equities_count = length-append traded.equities _ ∙ ap (λ l. length l + 1) equities;
    }

    round_of-Extends :
        (cs : List (MarketCandleRecord F)) (index : ℕ) (c : MarketCandleRecord F)
        (s after : Simulation F)
        → round_of rt fee_rate slippage_rate w cs index c s ≡ ok after
        → Extends s after 1
    unfolding round_of
    round_of-Extends cs index c s after e =
        let target = target_long rt cs w index in
        let kept = trade_keeps_curve (price_of c) target s in
        elim (Bool-cases (rt.le (price_of c) (zero_point rt))) [
          | inl bad ↦ absurd (ok≢err (sym (rw bad at e)))
          | inr good ↦
              let same : marked_to_market rt index c
                    (trade rt fee_rate slippage_rate (price_of c) target s)
                  ≡ after =
                ok_injective (rw good at e) in
              rw (← same) (
                marked_to_market-Extends index c s
                  (trade rt fee_rate slippage_rate (price_of c) target s) kept.0 kept.1)
        ]

    rounds-Extends :
        (cs : List (MarketCandleRecord F)) (index : ℕ) (xs : List (MarketCandleRecord F))
        (s after : Simulation F)
        → rounds rt fee_rate slippage_rate w cs index xs s ≡ ok after
        → Extends s after (length xs)
    unfolding rounds
    rounds-Extends cs index [] s after e =
        let same : s ≡ after = ok_injective e in
        rw (← same) (record {
          points = [];
          points_count = refl;
          curve = sym (append-nil s.equity_curve);
          equities_count = omega arith;
        })
    rounds-Extends cs index (x ∷ xs) s after e =
        let (middle, (first, rest)) =
          bind_ok (round_of rt fee_rate slippage_rate w cs index x s) _ _ e in
        let one : Extends s middle 1 = round_of-Extends cs index x s middle first in
        let more : Extends middle after (length xs) =
          rounds-Extends cs (suc index) xs middle after rest in
        record {
          points = one.points ++ more.points;
          points_count =
              omega
                (arith, length-append one.points more.points, one.points_count, more.points_count);
          curve =
              more.curve
              ∙ (ap (λ c. c ++ more.points) one.curve
                  ∙ append_assoc s.equity_curve one.points more.points);
          equities_count = omega (arith, one.equities_count, more.equities_count);
        }

  simulation_ok :
      (run : BacktestRun F) (created_at : ℕ) (candles : List (MarketCandleRecord F))
      (s : Simulation F)
      → length s.equities ≡ length candles
      → 0 < length candles
      → (r : BacktestResult F) × ((measured rt run created_at candles s ≡ ok r)
          × (r.equity_curve ≡ s.equity_curve))
  unfolding result_of
  simulation_ok run created_at [] s e h = absurd (omega arith)
  simulation_ok run created_at (c ∷ cs) s e h = with_equities s.equities e
    where
      with_equities :
          (equities : List F)
          → length equities ≡ length (c ∷ cs)
          → (r : BacktestResult F) × ((measured_at rt run created_at s
                  (ends equities)
                  (ends (c ∷ cs))
                ≡ ok r)
              × (r.equity_curve ≡ s.equity_curve))
      with_equities [] k = absurd (omega arith)
      with_equities (x ∷ xs) k = (_, (refl, refl))

  -- A backtest that succeeds on candles with later ones behind them succeeds on the earlier ones
  -- alone, and its equity curve on the earlier ones is the beginning of the curve on all, one point
  -- for each candle: no trade and no mark depends on a later candle.
  pub no_look_ahead :
      (run : BacktestRun F) (created_at w : ℕ) (c : MarketCandleRecord F)
      (cs later : List (MarketCandleRecord F)) (full : BacktestResult F)
      → simulate rt run created_at (c ∷ cs ++ later) w ≡ ok full
      → (early : BacktestResult F) × ((simulate rt run created_at (c ∷ cs) w ≡ ok early)
          × ((length early.equity_curve ≡ length (c ∷ cs))
              × (take (length (c ∷ cs)) full.equity_curve ≡ early.equity_curve)))
  unfolding simulate
  no_look_ahead run created_at w c cs later full e =
      let fee = rt.div run.fee_bps (rt.dec 10000 0) in
      let slippage = rt.div run.slippage_bps (rt.dec 10000 0) in
      let xs = c ∷ cs in
      let start = start_of rt run in
      let (end, (all, measured_all)) =
        bind_ok (rounds rt fee slippage w (xs ++ later) 0 (xs ++ later) start) _ _ e in
      let (middle, (first, rest)) =
        bind_ok (rounds rt fee slippage w (xs ++ later) 0 xs start) _ _
          (sym (rounds-split fee slippage w (xs ++ later) 0 xs later start) ∙ all) in
      let alone : rounds rt fee slippage w xs 0 xs start ≡ ok middle =
        sym (rounds-append fee slippage w xs later 0 xs start (omega arith)) ∙ first in
      let grown = rounds-Extends fee slippage w xs 0 xs start middle alone in
      let everything = rounds-Extends fee slippage w (xs ++ later) 0 (xs ++ later) start end all in
      let after = rounds-Extends fee slippage w (xs ++ later) _ later middle end rest in
      let (early, (early_ok, early_curve)) =
        simulation_ok run created_at xs middle (grown.equities_count ∙ omega arith) (omega arith) in
      let (whole, (whole_ok, whole_curve)) =
        simulation_ok run created_at (xs ++ later) end (everything.equities_count ∙ omega arith)
          (omega arith) in
      let count : length middle.equity_curve ≡ length xs =
        ap length grown.curve ∙ grown.points_count in
      let full_curve : full.equity_curve ≡ middle.equity_curve ++ after.points =
        ap (λ r. r.equity_curve) (ok_injective (sym measured_all ∙ whole_ok))
        ∙ (whole_curve ∙ after.curve) in
      (
        early,
        (
          ap (λ r. r >>= measured rt run created_at xs) alone ∙ early_ok,
          (
            ap length early_curve ∙ count,
            ap (take (length xs)) full_curve
                ∙ (ap (λ n. take n (middle.equity_curve ++ after.points)) (sym count)
                    ∙ (take-append middle.equity_curve after.points ∙ sym early_curve)),
          ),
        ),
      )
