-- ===== src/Baselines.antt =====
-- baselines.py: the model's scores against the naive persistence baseline, and the grade of the
-- evidence.
pub mod Grade
use paper_forecast_loop.Prelude.{
  ℕ, suc, ◌+◌, ◌-◌, ◌%◌, String, Bool, true, false, ◌&&◌, ◌||◌, Option, none, some, List, [], ◌∷◌,
  ◌++◌, ◌==◌, if◌then◌else◌, ltb, leb, length, keep, any, sorted_by, map, is_none, last?, take,
  drop, get_elem?, is_empty,
}
use paper_forecast_loop.Prelude.Text.{contains, concat}
use paper_forecast_loop.Runtime.{Runtime, Dict, Json, text, integer, number_or_null, zero_point}
use paper_forecast_loop.Models.Research.{Forecast, ForecastScore, BaselineEvaluation}
use paper_forecast_loop.Models.Evaluation.Ids.{build_baseline_id}

abbrev pub regime_universe : List String
regime_universe = "trend_up" ∷ "trend_down" ∷ "range_bound" ∷ "volatile_bull" ∷ "volatile_bear" ∷ []

abbrev pub bullish_regimes : List String
bullish_regimes = "trend_up" ∷ "volatile_bull" ∷ []

abbrev pub bearish_regimes : List String
bearish_regimes = "trend_down" ∷ "volatile_bear" ∷ []

-- `xs[-n:]` for a positive n
abbrev last_n {ℓ} : {A : Type ℓ} → ℕ → List A → List A
last_n n xs = drop (length xs - n) xs

directional_regime : List String → String
directional_regime actuals =
    let bullish_count = length (keep (contains bullish_regimes) actuals) in
    let bearish_count = length (keep (contains bearish_regimes) actuals) in
    if leb bearish_count bullish_count then "trend_up" else "trend_down"

-- `actuals[max(0, index - window) : index]`
abbrev history : List String → ℕ → ℕ → List String
history actuals window index = drop (index - window) (take index actuals)

abbrev prediction_at : List String → ℕ → ℕ → Option String
prediction_at actuals window index =
    let past = history actuals window index in
    if is_empty past then none else some (directional_regime past)

-- the predictions for `todo` more indexes from `index` on
predictions_from : List String → ℕ → ℕ → List String → List (Option String)
predictions_from actuals window index [] = []
predictions_from actuals window index (_ ∷ todo) =
    prediction_at actuals window index ∷ predictions_from actuals window (index + 1) todo

unfoldable pub rolling_direction_predictions : List String → ℕ → List (Option String)
unfolding predictions_from directional_regime
rolling_direction_predictions actuals window = predictions_from actuals window 0 actuals

-- `[None, *actuals[:-1]] if actuals else []`
unfoldable pub previous_regimes : List String → List (Option String)
previous_regimes [] = []
previous_regimes (a ∷ rest) = none ∷ map some (take (length rest) (a ∷ rest))

module _ {F : Type 0} where
  -- the hits of `_naive_persistence_accuracy` and the number of scores compared
  naive_hits : String → List (ForecastScore F) → ℕ
  naive_hits previous_actual [] = 0
  naive_hits previous_actual (score ∷ scores) =
      (if previous_actual == score.actual_regime then 1 else 0)
      + naive_hits score.actual_regime scores

  -- `zip(predictions, scores)`, without the predictions that are None
  evaluated : List (Option String) → List (ForecastScore F) → List (String × ForecastScore F)
  evaluated (some p ∷ predictions) (s ∷ scores) = (p, s) ∷ evaluated predictions scores
  evaluated (none ∷ predictions) (s ∷ scores) = evaluated predictions scores
  evaluated _ _ = []

module _ {F : Type 0} (rt : Runtime F) where
  -- the quotient of two counts
  abbrev ratio : ℕ → ℕ → F
  ratio a b = rt.div (rt.of_nat a) (rt.of_nat b)

  unfoldable pub average : List F → Option F
  average values =
      if is_empty values then none else some (rt.div (rt.sum values) (rt.of_nat (length values)))

  unfoldable pub naive_persistence_accuracy : List (ForecastScore F) → Option F
  unfolding naive_hits
  naive_persistence_accuracy [] = none
  naive_persistence_accuracy (s ∷ []) = none
  naive_persistence_accuracy (s ∷ (t ∷ rest)) =
      some (ratio (naive_hits s.actual_regime (t ∷ rest)) (length (t ∷ rest)))

  unfoldable pub evaluate_baseline :
      String → List (ForecastScore F) → List (Option String) → String → Dict F
  unfolding evaluated
  evaluate_baseline name scores predictions decision_basis =
      let pairs = evaluated predictions scores in
      let hit_count = length (keep (λ p. p.0 == p.1.actual_regime) pairs) in
      let accuracy = if is_empty pairs then none else some (ratio hit_count (length pairs)) in
      ("baseline_name", text name)
      ∷ ("accuracy", number_or_null accuracy)
      ∷ ("evaluated_count", integer (length pairs))
      ∷ ("hit_count", integer hit_count)
      ∷ ("sample_size", integer (length scores))
      ∷ ("decision_basis", text decision_basis)
      ∷ []

  abbrev deterministic_random_regime : String → ForecastScore F → Option String
  deterministic_random_regime symbol score = get_elem? regime_universe (
      rt.hash32 (
        concat
          (symbol ∷ ":" ∷ score.forecast_id ∷ ":" ∷ score.score_id ∷ ":deterministic-random" ∷ []))
      % length regime_universe)

  unfoldable pub build_baseline_suite : String → List (ForecastScore F) → List (Dict F)
  unfolding evaluate_baseline rolling_direction_predictions previous_regimes
  build_baseline_suite symbol scores =
      let scoped_scores = sorted_by (λ s. s.scored_at) scores in
      let actuals = map (λ s. s.actual_regime) scoped_scores in
      evaluate_baseline "naive_persistence" scoped_scores (previous_regimes actuals)
        "predict the next actual regime equals the previous actual regime"
      ∷ evaluate_baseline "no_trade_cash" scoped_scores (map (λ _. none) scoped_scores)
          "cash/no-trade baseline records zero directional exposure"
      ∷ evaluate_baseline "buy_and_hold" scoped_scores (map (λ _. some "trend_up") scoped_scores)
          "always hold long exposure; represented as trend_up regime prediction"
      ∷ evaluate_baseline "moving_average_trend" scoped_scores
          (rolling_direction_predictions actuals 3)
          "predict direction from the prior 3 scored actual regimes"
      ∷ evaluate_baseline "momentum_7d" scoped_scores (rolling_direction_predictions actuals 7)
          "predict direction from the prior 7 scored actual regimes"
      ∷ evaluate_baseline "momentum_14d" scoped_scores (rolling_direction_predictions actuals 14)
          "predict direction from the prior 14 scored actual regimes"
      ∷ evaluate_baseline "deterministic_random" scoped_scores
          (map (deterministic_random_regime symbol) scoped_scores)
          "deterministic random regime baseline using stable score identifiers"
      ∷ []

  -- `recent_score or 0.0`: a score of zero is falsy and is replaced by zero
  abbrev pub or_zero : Option F → F
  or_zero none = zero_point rt
  or_zero (some x) = x

  abbrev pub graded : ℕ → F → F → String
  graded sample_size model_edge recent =
      if leb 20 sample_size && rt.le (rt.dec 10 2) model_edge && rt.le (rt.dec 70 2) recent
      then "A"
      else if leb 5 sample_size && rt.lt (rt.dec 5 2) model_edge && rt.le (rt.dec 60 2) recent
      then "B"
      else if leb 3 sample_size && rt.lt (rt.dec 0 1) model_edge && rt.le (rt.dec 50 2) recent
      then "C"
      else "D"

  unfoldable pub evidence_grade : ℕ → Option F → Option F → Option F → Option F → String
  evidence_grade sample_size directional_accuracy baseline_accuracy model_edge recent_score =
      if ltb sample_size 2 || is_none directional_accuracy || is_none baseline_accuracy
      then "INSUFFICIENT"
      else elim model_edge [
        | none ↦ "INSUFFICIENT"
        | some edge ↦ graded sample_size edge (or_zero recent_score)
      ]

  abbrev difference : Option F → Option F → Option F
  difference (some a) (some b) = some (rt.sub a b)
  difference _ _ = none

  -- the scores of the given forecasts that are for the symbol; a later forecast with the same id
  -- takes the earlier one's place in the dictionary
  abbrev is_scoped : String → List (Forecast F) → ForecastScore F → Bool
  is_scoped symbol forecasts score =
      elim (last? (keep (λ f. f.forecast_id == score.forecast_id) forecasts)) [
        | none ↦ false
        | some f ↦ f.symbol == symbol
      ]

  unfoldable pub build_baseline_evaluation :
      String → ℕ → List (Forecast F) → List (ForecastScore F) → ℕ → BaselineEvaluation F
  unfolding average naive_persistence_accuracy build_baseline_suite evidence_grade
  build_baseline_evaluation symbol generated_at forecasts scores recent_window =
      let scoped_scores = sorted_by (λ s. s.scored_at) (keep (is_scoped symbol forecasts) scores) in
      let score_ids = map (λ s. s.score_id) scoped_scores in
      let sample_size = length scoped_scores in
      let directional_accuracy = average (map (λ s. s.score) scoped_scores) in
      let recent_score = average (map (λ s. s.score) (last_n recent_window scoped_scores)) in
      let baseline_accuracy = naive_persistence_accuracy scoped_scores in
      let model_edge = difference directional_accuracy baseline_accuracy in
      record {
        baseline_id =
            build_baseline_id rt symbol score_ids baseline_accuracy directional_accuracy
              recent_score;
        created_at = generated_at;
        symbol = symbol;
        sample_size = sample_size;
        directional_accuracy = directional_accuracy;
        baseline_accuracy = baseline_accuracy;
        model_edge = model_edge;
        recent_score = recent_score;
        evidence_grade =
            evidence_grade sample_size directional_accuracy baseline_accuracy model_edge
              recent_score;
        forecast_ids = map (λ s. s.forecast_id) scoped_scores;
        score_ids = score_ids;
        decision_basis = concat (
            "model directional accuracy compared with naive persistence baseline over "
            ∷ rt.show_nat sample_size
            ∷ " scored forecasts; expanded suite recorded for research audit"
            ∷ []);
        baseline_results = build_baseline_suite symbol scoped_scores;
      }
