-- ===== src/WalkForward/Rolling.antt =====
-- The loop of walk_forward.py ends, and its windows roll over the candles: ordered and disjoint
-- slices, one at each multiple of the step that leaves enough candles, and no other.
use paper_forecast_loop.Prelude.{
  ℕ, zero, suc, ◌+◌, ◌≤◌, ◌<◌, ◌≡◌, refl, ap, sym, subst, ◌∙◌, arith, String, some, some_injective,
  none≢some, List, [], ◌∷◌, ◌++◌, leb, leb→le, leb→gt, length, take, drop, ends, get_elem?, All,
  All-ends, Result, ok, err, ok_injective, ok≢err, Result-cases, Bool-cases, inl, inr,
}
use mathlib.Core.List.{append-nil, append_assoc}
use paper_forecast_loop.Runtime.{Runtime}
use paper_forecast_loop.Models.Research.{MarketCandleRecord, BacktestResult, WalkForwardWindow}
use paper_forecast_loop.Storage.{ArtifactRepository}
use paper_forecast_loop.Candles.Increasing.{
  IsIncreasing, IsIncreasing-drop, IsIncreasing-take, slice_below, ends_ordered, length-slice,
  All-take,
}
use paper_forecast_loop.Candles.Selected.{time_of}
use paper_forecast_loop.Backtest.{run_backtest}
use paper_forecast_loop.WalkForward.Windows.{
  WalkForwardRequest, required_candles, follow, bounds_of, request_within, train_of, validation_of,
  test_of, window_of, evaluate_window, walk,
}

module _ {F : Type 0} {A B : Type 0} where
  follow_ok :
      (p : Result A × ArtifactRepository F)
      (next : A → ArtifactRepository F → Result B × ArtifactRepository F) (b : B)
      → (follow p next).0 ≡ ok b
      → (a : A) × ((p.0 ≡ ok a) × ((next a p.1).0 ≡ ok b))
  follow_ok (ok a, repository) next b e = (a, (refl, e))
  follow_ok (err why, repository) next b e = absurd (ok≢err (sym e))

module _ {F : Type 0} where
  bounds_of-ends :
      (cs : List (MarketCandleRecord F)) (s e : ℕ)
      → bounds_of cs ≡ ok (s, e)
      → (a : MarketCandleRecord F) × (b : MarketCandleRecord F) × ((ends cs ≡ some (a, b))
          × ((a.timestamp ≡ s) × (b.timestamp ≡ e)))
  bounds_of-ends [] s e h = absurd (ok≢err (sym h))
  bounds_of-ends (c ∷ cs) s e h =
      (c, _, (refl, (ap (λ p. p.0) (ok_injective h), ap (λ p. p.1) (ok_injective h))))

  ends_start :
      (n i : ℕ) (xs : List (MarketCandleRecord F)) (a b : MarketCandleRecord F)
      → ends (take n (drop i xs)) ≡ some (a, b)
      → get_elem? xs i ≡ some a
  ends_start zero i xs a b e = absurd (none≢some e)
  ends_start (suc n) zero [] a b e = absurd (none≢some e)
  ends_start (suc n) zero (x ∷ xs) a b e = ap some (ap (λ p. p.0) (some_injective e))
  ends_start (suc n) (suc i) [] a b e = absurd (none≢some e)
  ends_start (suc n) (suc i) (x ∷ xs) a b e = ends_start (suc n) i xs a b e

  -- Two slices, one behind the other.
  slices_apart :
      (i n j m : ℕ) (cs : List (MarketCandleRecord F)) (s e t u : ℕ)
      → i + n ≤ j
      → IsIncreasing time_of cs
      → bounds_of (take n (drop i cs)) ≡ ok (s, e)
      → bounds_of (take m (drop j cs)) ≡ ok (t, u)
      → e < t
  slices_apart i n j m cs s e t u h k p q =
      let (a, b, (first, (_, at_e))) = bounds_of-ends (take n (drop i cs)) s e p in
      let (c, d, (second, (at_t, _))) = bounds_of-ends (take m (drop j cs)) t u q in
      let below =
        (All-ends (λ x. All (λ y. time_of x < time_of y) (drop j cs)) (take n (drop i cs)) a b
          (slice_below time_of i n j cs h k) first).1 in
      let apart : b.timestamp < c.timestamp =
        (All-ends (λ y. time_of b < time_of y) (take m (drop j cs)) c d
          (All-take (λ y. time_of b < time_of y) m (drop j cs) below) second).0 in
      rw (← at_e, ← at_t) apart

  slice_ordered :
      (i n : ℕ) (cs : List (MarketCandleRecord F)) (s e : ℕ)
      → IsIncreasing time_of cs
      → bounds_of (take n (drop i cs)) ≡ ok (s, e)
      → s ≤ e
  slice_ordered i n cs s e k p =
      let (a, b, (first, (at_s, at_e))) = bounds_of-ends (take n (drop i cs)) s e p in
      rw (← at_s, ← at_e)
        (ends_ordered time_of (take n (drop i cs)) a b
          (IsIncreasing-take time_of n (drop i cs) (IsIncreasing-drop time_of i cs k)) first)

  -- The window at an offset: its parts have the sizes asked for, and lie one behind the other.
  pub record IsWindowAt (r : WalkForwardRequest F) (candles : List (MarketCandleRecord F))
      (offset : ℕ) (w : WalkForwardWindow F) : Type 0 where
    pub train_count : w.train_candle_count ≡ r.train_size
    pub validation_count : w.validation_candle_count ≡ r.validation_size
    pub test_count : w.test_candle_count ≡ r.test_size
    pub first_candle :
        (c : MarketCandleRecord F) × ((get_elem? candles offset ≡ some c)
          × (c.timestamp ≡ w.train_start))
    pub train_ordered : w.train_start ≤ w.train_end
    pub validation_after_train : w.train_end < w.validation_start
    pub validation_ordered : w.validation_start ≤ w.validation_end
    pub test_after_validation : w.validation_end < w.test_start
    pub test_ordered : w.test_start ≤ w.test_end

  -- One window at each offset from the given one on, a step apart, as long as the candles reach.
  abbrev pub RollsFrom :
      WalkForwardRequest F → List (MarketCandleRecord F) → ℕ → List (WalkForwardWindow F) → Type 0
  RollsFrom r candles offset [] = length candles < offset + required_candles r
  RollsFrom r candles offset (w ∷ ws) =
      (offset + required_candles r ≤ length candles)
      × (IsWindowAt r candles offset w × RollsFrom r candles (offset + r.step_size) ws)

  abbrev pub window_result_ids : List (WalkForwardWindow F) → List String
  window_result_ids [] = []
  window_result_ids (w ∷ ws) =
      w.validation_backtest_result_id ∷ w.test_backtest_result_id ∷ window_result_ids ws

module _ {F : Type 0} (rt : Runtime F) (r : WalkForwardRequest F)
    (candles : List (MarketCandleRecord F)) where
  window_of-IsWindowAt :
      (offset : ℕ) (train validation test : ℕ × ℕ)
      (validation_result test_result : BacktestResult F)
      → IsIncreasing time_of candles
      → offset + required_candles r ≤ length candles
      → bounds_of (train_of r candles offset) ≡ ok train
      → bounds_of (validation_of r candles offset) ≡ ok validation
      → bounds_of (test_of r candles offset) ≡ ok test
      → IsWindowAt r candles offset (
          window_of rt train validation test
            (
              length (train_of r candles offset),
              (length (validation_of r candles offset), length (test_of r candles offset)),
            )
            validation_result
            test_result)
  unfolding window_of
  window_of-IsWindowAt offset (a, b) (c, d) (e, f) validation_result test_result k h p q s =
      let (first, _, (first_ends, (first_time, _))) =
        bounds_of-ends (train_of r candles offset) a b p in
      record {
        train_count = length-slice _ offset candles (omega arith) ∙ omega arith;
        validation_count =
            length-slice _ (offset + r.train_size) candles (omega arith) ∙ omega arith;
        test_count =
            length-slice _ (offset + r.train_size + r.validation_size) candles (omega arith)
            ∙ omega arith;
        first_candle = (first, (ends_start _ offset candles first _ first_ends, first_time));
        train_ordered = slice_ordered offset _ candles a b k p;
        validation_after_train =
            slices_apart offset _ (offset + r.train_size) _ candles a b c d (omega arith) k p q;
        validation_ordered = slice_ordered (offset + r.train_size) _ candles c d k q;
        test_after_validation =
            slices_apart (offset + r.train_size) _ (offset + r.train_size + r.validation_size) _
              candles c d e f (omega arith) k q s;
        test_ordered = slice_ordered (offset + r.train_size + r.validation_size) _ candles e f k s;
      }

  evaluate_window-IsWindowAt :
      (offset : ℕ) (repository : ArtifactRepository F) (w : WalkForwardWindow F)
      → IsIncreasing time_of candles
      → offset + required_candles r ≤ length candles
      → (evaluate_window rt r candles offset repository).0 ≡ ok w
      → IsWindowAt r candles offset w
  unfolding evaluate_window window_of
  evaluate_window-IsWindowAt offset repository w k h e =
      let (validation, (v_ok, e1)) =
        follow_ok (bounds_of (validation_of r candles offset), repository) _ w e in
      let (validation_run, (_, e2)) =
        follow_ok (run_backtest rt (request_within r validation) repository) _ w e1 in
      let (test, (t_ok, e3)) = follow_ok (bounds_of (test_of r candles offset), _) _ w e2 in
      let (test_run, (_, e4)) = follow_ok (run_backtest rt (request_within r test) _) _ w e3 in
      let (train, (tr_ok, e5)) = follow_ok (bounds_of (train_of r candles offset), _) _ w e4 in
      subst (IsWindowAt r candles offset) (ok_injective e5) (
        window_of-IsWindowAt offset train validation test validation_run.result test_run.result k h
          tr_ok v_ok t_ok)

  -- The loop ends before its fuel does.
  pub walk_ends :
      (fuel offset : ℕ) (windows : List (WalkForwardWindow F)) (ids : List String)
      (repository : ArtifactRepository F)
      → 0 < required_candles r
      → 0 < r.step_size
      → length candles < offset + suc fuel
      → (o : Result (List (WalkForwardWindow F) × List String) × ArtifactRepository F) × (walk rt r
            candles
            (suc fuel)
            offset
            windows
            ids
            repository
          ≡ some o)
  unfolding walk
  walk_ends zero offset windows ids repository p q h =
      elim (Bool-cases (leb (offset + required_candles r) (length candles))) [
        | inr beyond ↦ rw (beyond, walk) (_, refl)
        | inl within ↦ absurd (omega (arith, leb→le _ _ within))
      ]
  walk_ends (suc fuel) offset windows ids repository p q h =
      elim (Bool-cases (leb (offset + required_candles r) (length candles))) [
        | inr beyond ↦ rw (beyond, walk) (_, refl)
        | inl within ↦
            rw (within, walk)
              (elim (Result-cases (evaluate_window rt r candles offset repository).0) [
                | inl (why, raised) ↦ rw raised (_, refl)
                | inr (window, evaluated) ↦ rw evaluated (
                    walk_ends fuel (offset + r.step_size) _ _ _ p q
                      (omega (arith, leb→le _ _ within)))
              ])
      ]

  -- What the loop returns: new windows that roll from the offset, and their results' ids in order.
  pub record Walked (offset : ℕ) (windows : List (WalkForwardWindow F)) (ids : List String)
      (after_windows : List (WalkForwardWindow F)) (after_ids : List String) : Type 0 where
    pub new : List (WalkForwardWindow F)
    pub rolls : RollsFrom r candles offset new
    pub windows_added : after_windows ≡ windows ++ new
    pub ids_added : after_ids ≡ ids ++ window_result_ids new

  pub walk_rolls :
      (fuel offset : ℕ) (windows : List (WalkForwardWindow F)) (ids : List String)
      (repository after : ArtifactRepository F) (after_windows : List (WalkForwardWindow F))
      (after_ids : List String)
      → IsIncreasing time_of candles
      → walk rt r candles fuel offset windows ids repository
        ≡ some (ok (after_windows, after_ids), after)
      → Walked offset windows ids after_windows after_ids
  unfolding walk
  walk_rolls zero offset windows ids repository after after_windows after_ids k e =
      absurd (none≢some e)
  walk_rolls (suc fuel) offset windows ids repository after after_windows after_ids k e =
      elim (Bool-cases (leb (offset + required_candles r) (length candles))) [
        | inr beyond ↦
            let same : (ok (windows, ids), repository) ≡ (ok (after_windows, after_ids), after) =
              some_injective (rw (beyond, walk) at e) in
            let values : (windows, ids) ≡ (after_windows, after_ids) =
              ok_injective (ap (λ p. p.0) same) in
            record {
              new = [];
              rolls = leb→gt _ _ beyond;
              windows_added = sym (ap (λ p. p.0) values) ∙ sym (append-nil windows);
              ids_added = sym (ap (λ p. p.1) values) ∙ sym (append-nil ids);
            }
        | inl within ↦
            let reach : offset + required_candles r ≤ length candles = leb→le _ _ within in
            elim (Result-cases (evaluate_window rt r candles offset repository).0) [
              | inl (why, raised) ↦
                  absurd
                    (ok≢err (sym (ap (λ p. p.0) (some_injective (rw (within, raised, walk) at e)))))
              | inr (window, evaluated) ↦
                  let more =
                    walk_rolls fuel (offset + r.step_size) _ _ _ after after_windows after_ids k
                      (rw (within, evaluated, walk) at e) in
                  record {
                    new = window ∷ more.new;
                    rolls = (
                      reach,
                      (
                        evaluate_window-IsWindowAt offset repository window k reach evaluated,
                        more.rolls,
                      ),
                    );
                    windows_added =
                        more.windows_added ∙ append_assoc windows (window ∷ []) more.new;
                    ids_added = more.ids_added ∙ append_assoc ids _ _;
                  }
            ]
      ]
