-- ===== src/WalkForward/Validated.antt =====
-- What `run_walk_forward_validation` returns: it ends on every input, and a validation that it returns
-- is stored and describes all the windows of the candles.
use paper_forecast_loop.Prelude.{
  suc, ◌<◌, ◌≡◌, refl, ap, sym, ◌∙◌, subst, arith, Option, none, some, some_injective, none≢some,
  List, [], length, Result, ok, err, ok_injective, ok≢err, unraised, String, Option-cases, inl, inr,
  ltb, sorted_by,
}
use paper_forecast_loop.Runtime.{Runtime}
use paper_forecast_loop.Models.Research.{
  MarketCandleRecord, WalkForwardWindow, WalkForwardValidation,
}
use paper_forecast_loop.Storage.{ArtifactRepository}
use paper_forecast_loop.Candles.{select_candles, repeated_timestamp}
use paper_forecast_loop.Candles.Increasing.{IsIncreasing}
use paper_forecast_loop.Candles.Selected.{time_of, unrepeated-IsIncreasing}
use paper_forecast_loop.WalkForward.{
  invalid_inputs, candles_for, validation_for, walked, concluded, run_walk_forward_validation,
}
use paper_forecast_loop.WalkForward.Windows.{WalkForwardRequest, required_candles, walk}
use paper_forecast_loop.WalkForward.Rolling.{RollsFrom, window_result_ids, walk_ends, walk_rolls}

module _ {F : Type 0} where
  -- A returned validation and the candles it was made from.
  pub record IsValidated (r : WalkForwardRequest F) (candles : List (MarketCandleRecord F))
      (validation : WalkForwardValidation F) : Type 0 where
    pub increasing : IsIncreasing time_of candles
    pub rolls : RollsFrom r candles 0 validation.windows
    pub counted : validation.window_count ≡ length validation.windows
    pub ids : validation.backtest_result_ids ≡ window_result_ids validation.windows

module _ {F : Type 0} (rt : Runtime F) where
  valid_sizes :
      (r : WalkForwardRequest F)
      → invalid_inputs rt r ≡ none
      → (0 < required_candles r) × (0 < r.step_size)
  unfolding invalid_inputs
  valid_sizes r e = ground arith

  candles_for-IsIncreasing :
      (r : WalkForwardRequest F) (stored candles : List (MarketCandleRecord F))
      → candles_for rt r stored ≡ ok candles
      → IsIncreasing time_of candles
  unfolding candles_for
  candles_for-IsIncreasing r stored candles e =
      let (_, unrepeated) =
        unraised
          (ltb (length (sorted_by time_of (select_candles stored r.symbol r.start r.end r.as_of)))
            (required_candles r))
          _ _ candles e in
      elim (Option-cases (
        repeated_timestamp
          (sorted_by time_of (select_candles stored r.symbol r.start r.end r.as_of)))) [
            | inl none_repeated ↦
                subst (IsIncreasing time_of) (ok_injective (rw none_repeated at unrepeated))
                  (unrepeated-IsIncreasing _ none_repeated)
            | inr (t, repeated) ↦ absurd (ok≢err (sym (rw repeated at unrepeated)))
          ]

  concluded_ends :
      (r : WalkForwardRequest F)
      (o : Result (List (WalkForwardWindow F) × List String) × ArtifactRepository F)
      → (p : Result (WalkForwardValidation F) × ArtifactRepository F) × (concluded rt r (some o)
          ≡ some p)
  concluded_ends r (err why, after) = (_, refl)
  concluded_ends r (ok values, after) = (_, refl)

  walked_ends :
      (r : WalkForwardRequest F) (repository : ArtifactRepository F)
      (found : Result (List (MarketCandleRecord F)))
      → 0 < required_candles r
      → 0 < r.step_size
      → (p : Result (WalkForwardValidation F) × ArtifactRepository F) × (walked rt r repository
            found
          ≡ some p)
  walked_ends r repository (err why) p q = (_, refl)
  walked_ends r repository (ok candles) p q =
      let (outcome, ended) =
        walk_ends rt r candles (length candles) 0 [] [] repository p q (omega arith) in
      let (after, stored) = concluded_ends r outcome in (after, ap (concluded rt r) ended ∙ stored)

  -- Every call of run_walk_forward_validation ends, in an error or in a validation: the loop needs no
  -- more rounds than there are candles.
  pub run_walk_forward_validation_terminates :
      (r : WalkForwardRequest F) (repository : ArtifactRepository F)
      → (o : Result (WalkForwardValidation F) × ArtifactRepository F) × (run_walk_forward_validation
            rt r repository
          ≡ some o)
  unfolding run_walk_forward_validation
  run_walk_forward_validation_terminates r repository = elim (Option-cases (invalid_inputs rt r)) [
    | inr (why, invalid) ↦ rw (invalid, run_walk_forward_validation) (_, refl)
    | inl valid ↦
        let (required, step) = valid_sizes r valid in
        rw (valid, run_walk_forward_validation)
          (walked_ends r repository (candles_for rt r repository.market_candles) required step)
  ]

  concluded-IsValidated :
      (r : WalkForwardRequest F) (candles : List (MarketCandleRecord F))
      (repository after : ArtifactRepository F) (validation : WalkForwardValidation F)
      → IsIncreasing time_of candles
      → (outcome : Option
          (Result (List (WalkForwardWindow F) × List String) × ArtifactRepository F))
      → walk rt r candles (suc (length candles)) 0 [] [] repository ≡ outcome
      → concluded rt r outcome ≡ some (ok validation, after)
      → IsValidated r candles validation
  unfolding validation_for
  concluded-IsValidated r candles repository after validation k none e h = absurd (none≢some h)
  concluded-IsValidated r candles repository after validation k (some (err why, _)) e h =
      absurd (ok≢err (sym (ap (λ p. p.0) (some_injective h))))
  concluded-IsValidated r candles repository after validation k (some (ok (windows, ids), left)) e
        h =
      let more =
        walk_rolls rt r candles (suc (length candles)) 0 [] [] repository left windows ids k e in
      let all : windows ≡ more.new = more.windows_added in
      subst (IsValidated r candles) (ok_injective (ap (λ p. p.0) (some_injective h))) (record {
        increasing = k;
        rolls = subst (RollsFrom r candles 0) (sym all) more.rolls;
        counted = refl;
        ids = more.ids_added ∙ ap window_result_ids (sym all);
      })

  -- A validation that run_walk_forward_validation returns is made from the candles selected for the
  -- request, which are in strictly increasing order. Its windows stand at the offsets 0, step_size,
  -- 2 * step_size and so on, one at each offset from which train, validation and test still fit and
  -- no other; each has train, validation and test candles of the sizes asked for, train before
  -- validation before test with no overlap; and the recorded backtest results are those of the
  -- windows in order.
  pub walk_forward_rolls :
      (r : WalkForwardRequest F) (repository after : ArtifactRepository F)
      (validation : WalkForwardValidation F)
      → run_walk_forward_validation rt r repository ≡ some (ok validation, after)
      → (candles : List (MarketCandleRecord F)) × ((candles_for rt r repository.market_candles
            ≡ ok candles)
          × IsValidated r candles validation)
  unfolding run_walk_forward_validation
  walk_forward_rolls r repository after validation e = elim (Option-cases (invalid_inputs rt r)) [
    | inr (why, invalid) ↦ absurd (
        ok≢err
          (sym (ap (λ p. p.0) (some_injective (rw (invalid, run_walk_forward_validation) at e)))))
    | inl valid ↦
        with_candles (candles_for rt r repository.market_candles) refl
          (rw (valid, run_walk_forward_validation) at e)
  ]
    where
      with_candles :
          (found : Result (List (MarketCandleRecord F)))
          → candles_for rt r repository.market_candles ≡ found
          → walked rt r repository found ≡ some (ok validation, after)
          → (candles : List (MarketCandleRecord F)) × ((candles_for rt r repository.market_candles
                ≡ ok candles)
              × IsValidated r candles validation)
      with_candles (err why) f h = absurd (ok≢err (sym (ap (λ p. p.0) (some_injective h))))
      with_candles (ok candles) f h = (
        candles,
        (
          f,
          concluded-IsValidated r candles repository after validation
              (candles_for-IsIncreasing r repository.market_candles candles f) _ refl h,
        ),
      )
