-- ===== src/ResearchGates/Allowed.antt =====
-- When a BUY or a SELL is allowed by the evidence (research_gates.py).
use paper_forecast_loop.Prelude.{
  ℕ, ◌≤◌, String, ◌≡◌, refl, ◌↔◌, ◌≢◌, true, false, not, Option, none, some, List, [], ◌∷◌, ◌++◌,
  is_empty, is_empty-append, is_none, Bool-cases, inl, inr, ltb, arith, first?,
}
use paper_forecast_loop.Prelude.Text.{contains}
use paper_forecast_loop.Runtime.{Runtime, zero_point}
use paper_forecast_loop.Models.Research.{
  BaselineEvaluation, BacktestResult, WalkForwardValidation, EventEdgeEvaluation,
}
use paper_forecast_loop.ResearchGates.{
  ResearchGateResult, flag_if, missing_or_at_most, baseline_flags, backtest_flags,
  walk_forward_flags, event_edge_flags, is_degraded, research_flags, evaluate_research_gates,
}

module _ {F : Type 0} (rt : Runtime F) where
  -- A value that is there and is not at most the limit.
  abbrev pub Beats : Option F → F → Type 0
  Beats none limit = ⊥
  Beats (some x) limit = rt.le x limit ≡ false

  abbrev pub BacktestPasses : Option (BacktestResult F) → F → Type 0
  BacktestPasses none limit = ⊥
  BacktestPasses (some b) limit =
      (rt.le b.strategy_return b.benchmark_return ≡ false) × (rt.lt limit b.max_drawdown ≡ false)

  abbrev pub WalkForwardPasses : Option (WalkForwardValidation F) → Type 0
  WalkForwardPasses none = ⊥
  WalkForwardPasses (some w) =
      (rt.le w.average_excess_return (zero_point rt) ≡ false)
      × (rt.le w.average_test_return w.average_benchmark_return ≡ false)
      × (w.overfit_risk_flags ≡ [])

  abbrev pub EventEdgePasses : Option (EventEdgeEvaluation F) → Type 0
  EventEdgePasses none = ⊥
  EventEdgePasses (some e) =
      (e.passed ≡ true) × Beats e.average_excess_return_after_costs (zero_point rt)

  -- The evidence, stated by itself.
  pub record IsSupported (baseline : BaselineEvaluation F) (backtest : Option (BacktestResult F))
      (walk_forward : Option (WalkForwardValidation F))
      (event_edge : Option (EventEdgeEvaluation F)) (min_sample_size : ℕ)
      (min_model_edge max_drawdown : F) : Type 0 where
    pub sampled : min_sample_size ≤ baseline.sample_size
    pub edged : Beats baseline.model_edge min_model_edge
    pub backtested : BacktestPasses backtest max_drawdown
    pub walked : WalkForwardPasses walk_forward
    pub event_edged : EventEdgePasses event_edge
    pub not_degraded : is_degraded rt baseline ≡ false

  baseline_flags-empty :
      (b : BaselineEvaluation F) (n : ℕ) (edge : F)
      → (is_empty (baseline_flags rt b n edge) ≡ true)
        ↔ ((n ≤ b.sample_size) × Beats b.model_edge edge)
  baseline_flags-empty b n edge = by_edge b.model_edge
    where
      by_edge :
          (o : Option F)
          → (is_empty (
                flag_if (ltb b.sample_size n) "research_sample_size_too_low"
                ++ flag_if (missing_or_at_most rt o edge) "research_model_edge_not_positive")
              ≡ true)
            ↔ ((n ≤ b.sample_size) × Beats o edge)
      by_edge none = (λ h. ground arith, λ h. absurd h.1)
      by_edge (some x) = (λ h. ground arith, λ h. ground arith)

  backtest_flags-empty :
      (b : Option (BacktestResult F)) (limit : F)
      → (is_empty (backtest_flags rt b limit) ≡ true) ↔ BacktestPasses b limit
  backtest_flags-empty none limit = (λ h. cc, λ h. absurd h)
  backtest_flags-empty (some b) limit = (λ h. ground arith, λ h. ground arith)

  walk_forward_flags-empty :
      (w : Option (WalkForwardValidation F))
      → (is_empty (walk_forward_flags rt w) ≡ true) ↔ WalkForwardPasses w
  walk_forward_flags-empty none = (λ h. cc, λ h. absurd h)
  walk_forward_flags-empty (some w) = (λ h. ground arith, λ h. ground arith)

  event_edge_flags-empty :
      (e : Option (EventEdgeEvaluation F))
      → (is_empty (event_edge_flags rt e) ≡ true) ↔ EventEdgePasses e
  event_edge_flags-empty none = (λ h. cc, λ h. absurd h)
  event_edge_flags-empty (some e) = by_edge e.average_excess_return_after_costs
    where
      by_edge :
          (o : Option F)
          → (is_empty (
                flag_if (not e.passed) "research_event_edge_not_passed"
                ++ flag_if
                    (missing_or_at_most rt o (zero_point rt))
                    "research_event_edge_not_positive")
              ≡ true)
            ↔ ((e.passed ≡ true) × Beats o (zero_point rt))
      by_edge none = (λ h. ground arith, λ h. absurd h.1)
      by_edge (some x) = (λ h. ground arith, λ h. ground arith)

  contains_none : (xs : List String) (s : String) → is_empty xs ≡ true → contains xs s ≡ false
  contains_none [] s h = refl
  contains_none (x ∷ xs) s h = cc

  is_empty-eq-no_first : (xs : List String) → is_empty xs ≡ is_none (first? xs)
  is_empty-eq-no_first [] = refl
  is_empty-eq-no_first (x ∷ xs) = refl

  module _ (baseline : BaselineEvaluation F) (backtest : Option (BacktestResult F))
      (walk_forward : Option (WalkForwardValidation F))
      (event_edge : Option (EventEdgeEvaluation F)) (min_sample_size : ℕ)
      (min_model_edge max_drawdown : F) where
    abbrev gate : ResearchGateResult
    gate =
        evaluate_research_gates rt baseline backtest walk_forward event_edge min_sample_size
          min_model_edge max_drawdown

    -- A direction is allowed exactly when the baseline has the samples and an edge that is not at or
    -- below the minimum; the backtest is there, its return not at or below its benchmark's and its
    -- drawdown not above the limit; the walk-forward validation is there, with an excess not at or
    -- below 0, a test return not at or below its benchmark's and no overfit flag; the event edge is
    -- there, passed, with an excess after costs not at or below 0; and the recent score is not below
    -- 0.4.
    pub directional_exact :
        (gate.directional_allowed ≡ true)
        ↔ IsSupported baseline backtest walk_forward event_edge min_sample_size min_model_edge
            max_drawdown
    unfolding evaluate_research_gates research_flags
    directional_exact = simp is_empty-append (
      λ h. record {
        sampled =
            ((baseline_flags-empty baseline min_sample_size min_model_edge).0 (ground arith)).0;
        edged = ((baseline_flags-empty baseline min_sample_size min_model_edge).0 (ground arith)).1;
        backtested = (backtest_flags-empty backtest max_drawdown).0 (ground arith);
        walked = (walk_forward_flags-empty walk_forward).0 (ground arith);
        event_edged = (event_edge_flags-empty event_edge).0 (ground arith);
        not_degraded = ground arith;
      },
      λ h. ground (
        arith,
        (baseline_flags-empty baseline min_sample_size min_model_edge).1 (h.sampled, h.edged),
        (backtest_flags-empty backtest max_drawdown).1 h.backtested,
        (walk_forward_flags-empty walk_forward).1 h.walked,
        (event_edge_flags-empty event_edge).1 h.event_edged,
        h.not_degraded,
      ),
    )

    abbrev found : List String
    found =
        research_flags rt baseline backtest walk_forward event_edge min_sample_size min_model_edge
          max_drawdown

    -- A result allows a direction exactly when it carries no block reason.
    pub allowed_iff_unblocked : gate.directional_allowed ≡ is_none gate.blocked_reason
    unfolding evaluate_research_gates
    allowed_iff_unblocked = is_empty-eq-no_first found

    -- A result that recommends a reduction of risk allows no direction.
    pub reduction_forbids : gate.recommended_action ≢ none → gate.directional_allowed ≡ false
    unfolding evaluate_research_gates
    reduction_forbids h = elim (Bool-cases (is_empty found)) [
      | inr some_flag ↦ some_flag
      | inl none_found ↦ absurd (
          h (
            ground (
              arith,
              contains_none found "research_backtest_drawdown_too_high" none_found,
              contains_none found "research_walk_forward_overfit_risk" none_found,
              (directional_exact.0 none_found).not_degraded,
            )))
    ]
