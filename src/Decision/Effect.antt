-- ===== src/Decision/Effect.antt =====
-- What a call of `generate_strategy_decision` returns and stores (decision.py).
use paper_forecast_loop.Prelude.{
  ℕ, String, Option, ◌==◌, not, ltb, ltb→ge, unrefused, arith, ◌+◌, ◌≤◌, ◌≡◌, refl, ◌⊎◌, is_some,
  ap, inl, inr, true, false, none, some, [], ◌∷◌, is_none, Bool-cases, last?, Option-cases,
}
use mathlib.Core.Bool.{false≢true}
use paper_forecast_loop.Prelude.Text.{contains}
use paper_forecast_loop.Runtime.{Runtime, zero_point}
use paper_forecast_loop.Models.Research.{Forecast}
use paper_forecast_loop.Models.Trading.{StrategyDecision}
use paper_forecast_loop.Models.Portfolio.{RiskSnapshot}
use paper_forecast_loop.Models.Portfolio.Snapshots.{empty_portfolio}
use paper_forecast_loop.Storage.{
  ArtifactRepository, save_baseline_evaluation, save_strategy_decision, save_portfolio_snapshot,
}
use paper_forecast_loop.ResearchGates.Allowed.{
  IsSupported, allowed_iff_unblocked, directional_exact,
}
use paper_forecast_loop.Decision.{risk_is}
use paper_forecast_loop.Decision.Selection.{
  hours, latest_for_symbol, latest_backtest_for_research, latest_or_empty_portfolio,
  risk_blocked_reason,
}
use paper_forecast_loop.Decision.Actions.{tradeable_iff_unblocked, directional_rests_on}
use paper_forecast_loop.Decision.Generate.{
  DecisionRequest, repair_required, scoped_forecasts, baseline_for, risk_for, evidence_for,
  forecast_ids_of, decision_of, build_fail_closed, decide, generate_strategy_decision,
}

-- A risk snapshot without a blocking reason.
risk_vouched :
    {F : Type 0}
    → (o : Option (RiskSnapshot F)) (symbol : String) (now stale : ℕ)
    → risk_blocked_reason o symbol now stale ≡ none
    → (risk : RiskSnapshot F) × (o ≡ some risk)
      × ((risk.symbol == symbol) ≡ true)
      × (now ≤ risk.created_at + hours stale)
unfolding risk_blocked_reason
risk_vouched none symbol now stale h = cc
risk_vouched (some risk) symbol now stale h =
    let (own, rest) = unrefused (not (risk.symbol == symbol)) "risk_snapshot_symbol_mismatch" _ h in
    let (fresh, _) =
      unrefused (ltb (risk.created_at + hours stale) now) "risk_snapshot_stale" none rest in
    (risk, refl, ground arith, ltb→ge (risk.created_at + hours stale) now fresh)

module _ {F : Type 0} (rt : Runtime F) (repository : ArtifactRepository F)
    (r : DecisionRequest F) where
  abbrev outcome : StrategyDecision F × ArtifactRepository F
  outcome = generate_strategy_decision rt repository r

  abbrev stored : ArtifactRepository F
  stored = save_baseline_evaluation (baseline_for rt repository r) repository

  latest_or_empty_portfolio-cases :
      ((is_some (last? repository.portfolio_snapshots) ≡ true)
        × ((latest_or_empty_portfolio rt stored r.now).1 ≡ stored))
      ⊎ ((last? repository.portfolio_snapshots ≡ none)
          × ((latest_or_empty_portfolio rt stored r.now).1
              ≡ save_portfolio_snapshot (empty_portfolio rt r.now (rt.dec 10000 0)) stored))
  unfolding latest_or_empty_portfolio
  latest_or_empty_portfolio-cases = elim (Option-cases (last? repository.portfolio_snapshots)) [
    | inl missing ↦ inr (missing, rw (missing, latest_or_empty_portfolio) refl)
    | inr (portfolio, found) ↦ inl (rw found refl, rw (found, latest_or_empty_portfolio) refl)
  ]

  -- If a health check asks for a repair, the decision stops new entries, is not tradeable, recommends
  -- a position of 0, and is all that is stored.
  pub generate_fails_closed :
      repair_required r.health_result ≡ true
      → (outcome.0.action ≡ "STOP_NEW_ENTRIES")
        × (outcome.0.tradeable ≡ false)
        × (outcome.0.blocked_reason ≡ some "health_check_repair_required")
        × (outcome.0.recommended_position_pct ≡ some (zero_point rt))
        × (outcome.1 ≡ save_strategy_decision outcome.0 repository)
  unfolding generate_strategy_decision build_fail_closed
  generate_fails_closed h = rw h (refl, refl, refl, refl, refl)

  -- A decision that needs no repair is stored after its baseline; if no portfolio snapshot stands in
  -- the repository, an empty one of 10000 is stored between them. Nothing else changes.
  pub generate-Effect :
      repair_required r.health_result ≡ false
      → ((is_some (last? repository.portfolio_snapshots) ≡ true)
          × (outcome.1 ≡ save_strategy_decision outcome.0 stored))
        ⊎ ((last? repository.portfolio_snapshots ≡ none)
            × (outcome.1
                ≡ save_strategy_decision outcome.0
                    (save_portfolio_snapshot (empty_portfolio rt r.now (rt.dec 10000 0)) stored)))
  unfolding generate_strategy_decision decide
  generate-Effect h = rw h (elim latest_or_empty_portfolio-cases [
    | inl (found, same) ↦ inl (found, ap (save_strategy_decision decided) same)
    | inr (missing, new) ↦ inr (missing, ap (save_strategy_decision decided) new)
  ])
    where
      decided : StrategyDecision F
      decided = (decide rt repository r).0

  -- A decision is tradeable exactly when it has no blocked reason.
  pub decision_tradeable_iff_unblocked : outcome.0.tradeable ≡ is_none outcome.0.blocked_reason
  unfolding generate_strategy_decision build_fail_closed decide decision_of evidence_for
  decision_tradeable_iff_unblocked = elim (Bool-cases (repair_required r.health_result)) [
    | inl broken ↦ rw broken refl
    | inr sound ↦ rw sound (
        tradeable_iff_unblocked rt
          (evidence_for rt repository r (latest_or_empty_portfolio rt stored r.now).0)
          (allowed_iff_unblocked rt (baseline_for rt repository r)
            (latest_backtest_for_research repository.backtest_results repository.backtest_runs
              r.symbol none none)
            (latest_for_symbol (λ w. w.symbol) (λ w. w.created_at)
              repository.walk_forward_validations r.symbol)
            (latest_for_symbol (λ e. e.symbol) (λ e. e.created_at) repository.event_edge_evaluations
              r.symbol)
            5 (zero_point rt) (rt.dec 25 2)))
  ]

  -- What stands behind a purchase or a sale, stated on the repository.
  pub record IsJustified (d : StrategyDecision F) : Type 0 where
    pub healthy : repair_required r.health_result ≡ false
    pub forecast : Forecast F
    pub latest : last? (scoped_forecasts repository r.symbol) ≡ some forecast
    pub fresh : r.now ≤ forecast.anchor_time + hours r.stale_after_hours
    pub no_stop : risk_is (risk_for repository r) "STOP_NEW_ENTRIES" ≡ false
    pub no_reduction : risk_is (risk_for repository r) "REDUCE_RISK" ≡ false
    pub risk : RiskSnapshot F
    pub risk_there : risk_for repository r ≡ some risk
    pub own_risk : (risk.symbol == r.symbol) ≡ true
    pub risk_fresh : r.now ≤ risk.created_at + hours r.risk_stale_after_hours
    pub graded : contains ("A" ∷ "B" ∷ []) (baseline_for rt repository r).evidence_grade ≡ true
    pub supported :
        IsSupported rt
          (baseline_for rt repository r)
          (latest_backtest_for_research repository.backtest_results repository.backtest_runs
            r.symbol none none)
          (latest_for_symbol
            (λ w. w.symbol)
            (λ w. w.created_at)
            repository.walk_forward_validations
            r.symbol)
          (latest_for_symbol
            (λ e. e.symbol)
            (λ e. e.created_at)
            repository.event_edge_evaluations
            r.symbol)
          5
          (zero_point rt)
          (rt.dec 25 2)
    pub tradeable : d.tradeable ≡ true
    pub links : d.forecast_ids ≡ forecast.forecast_id ∷ []

  -- A BUY or a SELL decision is justified by the repository: no repair is due, the latest forecast of
  -- the symbol is fresh and linked, a risk snapshot of the symbol is there, fresh, and calls for
  -- neither a stop nor a reduction, the grade is A or B, and samples, edge, backtest, walk-forward validation and event
  -- edge pass the gate. Such a decision is tradeable.
  pub directional-IsJustified :
      contains ("BUY" ∷ "SELL" ∷ []) outcome.0.action ≡ true → IsJustified outcome.0
  unfolding generate_strategy_decision build_fail_closed decide decision_of evidence_for
  directional-IsJustified h = elim (Bool-cases (repair_required r.health_result)) [
    | inl broken ↦ absurd (false≢true (rw broken at h))
    | inr sound ↦
        let e = evidence_for rt repository r (latest_or_empty_portfolio rt stored r.now).0 in
        let (forecast, latest, fresh, no_stop, no_reduction, backed, directed) =
          directional_rests_on rt e (rw sound at h) in
        let (risk, risk_there, own_risk, risk_fresh) =
          risk_vouched (risk_for repository r) r.symbol r.now r.risk_stale_after_hours
            backed.risk_known in
        record {
          healthy = sound;
          forecast = forecast;
          latest = latest;
          fresh = fresh;
          no_stop = no_stop;
          no_reduction = no_reduction;
          risk = risk;
          risk_there = risk_there;
          own_risk = own_risk;
          risk_fresh = risk_fresh;
          graded = backed.graded;
          supported =
              (directional_exact rt (baseline_for rt repository r)
                  (latest_backtest_for_research repository.backtest_results repository.backtest_runs
                    r.symbol none none)
                  (latest_for_symbol (λ w. w.symbol) (λ w. w.created_at)
                    repository.walk_forward_validations r.symbol)
                  (latest_for_symbol (λ e. e.symbol) (λ e. e.created_at)
                    repository.event_edge_evaluations r.symbol)
                  5 (zero_point rt) (rt.dec 25 2)).0
                backed.supported;
          tradeable = rw sound directed.0;
          links = rw sound (ap forecast_ids_of latest);
        }
  ]
