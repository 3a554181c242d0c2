-- ===== src/ExecutionSafety/Passed.antt =====
-- What an allowed execution stands on (execution_safety.py).
use paper_forecast_loop.Prelude.{
  ◌≡◌, ap, sym, ◌∙◌, String, true, false, not, ◌&&◌, ◌||◌, some, [], ◌∷◌, ◌==◌, all, all-All,
  All-split, ok, ok_injective, ok≢err, guard_ok, Result-cases, inl, inr, subst,
}
use paper_forecast_loop.Prelude.Text.{contains, lower, upper, dashes_to_underscores}
use paper_forecast_loop.Runtime.{Runtime}
use paper_forecast_loop.Models.Trading.{
  StrategyDecision, PaperOrder, BrokerReconciliation, ExecutionSafetyGate,
}
use paper_forecast_loop.Models.Portfolio.{RiskSnapshot}
use paper_forecast_loop.Storage.{ArtifactRepository}
use paper_forecast_loop.Assets.{Asset, get_asset}
use paper_forecast_loop.BrokerLifecycle.{allowed_modes}
use paper_forecast_loop.ExecutionSafety.{
  GateInput, GateSubjects, subjects_for, checks_for, execution_gate_for, normalize_gate_mode,
  evaluate_execution_safety_gate,
}
use paper_forecast_loop.ExecutionSafety.Checks.{
  passed, decision_checks, control_checks, risk_checks, broker_health_checks, order_checks,
  reconciliation_checks, text_of, mode_passes,
}
use paper_forecast_loop.ExecutionSafety.Subjects.{
  Passes, passed_if, denied, market-Passes, decision-Passes, order-Passes, risk-Passes,
  reconciliation-Passes, IsExecutable, IsSubmittable, IsTolerable,
}

normalized_mode :
    (mode normalized : String)
    → normalize_gate_mode mode ≡ ok normalized
    → (contains allowed_modes normalized ≡ true) × (normalized ≡ dashes_to_underscores (upper mode))
unfolding normalize_gate_mode
normalized_mode mode normalized e =
    let (known, same) =
      guard_ok (contains allowed_modes (dashes_to_underscores (upper mode))) _ _ normalized e in
    (subst (λ m. contains allowed_modes m ≡ true) same known, sym same)

module _ {F : Type 0} (rt : Runtime F) where
  -- Everything that an allowed gate stands on.
  pub record IsSafe (repository : ArtifactRepository F) (i : GateInput F) (broker_mode : String)
      (subjects : GateSubjects F) : Type 0 where
    pub healthy : (i.health_result.status == "healthy") ≡ true
    pub decided :
        (d : StrategyDecision F) × ((subjects.decision ≡ some d)
          × IsExecutable rt repository.control_events i.min_evidence_grade d)
    pub tolerable :
        (k : RiskSnapshot F) × ((subjects.risk ≡ some k) × IsTolerable subjects.decision k)
    pub broker_healthy : (lower (text_of i.broker_health.status) == "healthy") ≡ true
    pub broker_mode_agrees : mode_passes i.broker_health.mode broker_mode ≡ true
    pub no_live_trading : i.broker_health.live_trading_available ≡ false
    pub ordered :
        (o : PaperOrder F) × ((subjects.order ≡ some o)
          × IsSubmittable rt repository i broker_mode subjects.decision o)
    pub reconciled :
        (q : BrokerReconciliation F) × ((subjects.reconciliation ≡ some q)
          × ((q.repair_required ≡ false) × ((q.severity == "blocking") ≡ false)))
    pub market_open :
        (asset : Asset) × ((get_asset i.symbol ≡ some asset)
          × ((asset.asset_class == "crypto" || (asset.market == "US" && i.is_trading_day)) ≡ true))

  checks_pass-IsSafe :
      (repository : ArtifactRepository F) (i : GateInput F) (broker_mode : String)
      (subjects : GateSubjects F)
      → all passed (checks_for rt repository i broker_mode subjects) ≡ true
      → IsSafe repository i broker_mode subjects
  unfolding checks_for broker_health_checks
  checks_pass-IsSafe repository i broker_mode subjects h =
      let (healthy, rest) = all-All passed (checks_for rt repository i broker_mode subjects) h in
      let (decision, rest1) =
        All-split Passes (decision_checks subjects.decision i.min_evidence_grade) _ rest in
      let (control, rest2) =
        All-split Passes (control_checks rt repository.control_events subjects.decision) _ rest1 in
      let (risk, rest3) = All-split Passes (risk_checks subjects.risk subjects.decision) _ rest2 in
      let (broker, rest4) =
        All-split Passes (broker_health_checks i.broker_health broker_mode) _ rest3 in
      let (order, rest5) =
        All-split Passes
          (order_checks rt subjects.order subjects.decision repository.paper_orders
            repository.broker_orders i.broker broker_mode i.max_order_position_pct)
          _ rest4 in
      let (reconciliation, market) =
        All-split Passes (reconciliation_checks subjects.reconciliation) _ rest5 in
      let (well, (mode, (paper, _))) = broker in
      record {
        healthy = passed_if (i.health_result.status == "healthy") healthy;
        decided =
            decision-Passes rt repository.control_events i.min_evidence_grade subjects.decision
              decision control;
        tolerable = risk-Passes subjects.risk subjects.decision risk;
        broker_healthy = passed_if (lower (text_of i.broker_health.status) == "healthy") well;
        broker_mode_agrees = passed_if (mode_passes i.broker_health.mode broker_mode) mode;
        no_live_trading =
            denied i.broker_health.live_trading_available
              (passed_if (not i.broker_health.live_trading_available) paper);
        ordered = order-Passes rt repository i broker_mode subjects.decision subjects.order order;
        reconciled = reconciliation-Passes subjects.reconciliation reconciliation;
        market_open = market-Passes i.symbol (get_asset i.symbol) i.is_trading_day market.0;
      }

  -- If evaluate_execution_safety_gate allows an execution, then the broker mode that the gate records
  -- is the requested one in upper case with underscores for dashes, and is one of the two paper modes;
  -- the health check is healthy; the selected decision exists, is tradeable and orderable, has the
  -- least grade of evidence asked for or a better one, and no operator control holds it back; the
  -- latest risk snapshot exists and is not blocking, and has severity none if the decision buys; the
  -- broker is healthy, in that mode if it names one, and has no live trading; the selected order exists,
  -- is CREATED, moves the position by no more than the limit, and is the only CREATED order of its
  -- symbol, with no active broker order of the symbol at the broker in that mode; the latest
  -- reconciliation of the broker in that mode exists, needs no repair and is not blocking; and the
  -- symbol is that of an asset of the registry whose market is open.
  pub allowed_gate-IsSafe :
      (repository : ArtifactRepository F) (i : GateInput F) (gate : ExecutionSafetyGate F)
      → (evaluate_execution_safety_gate rt repository i).0 ≡ ok gate
      → gate.allowed ≡ true
      → (contains ("EXTERNAL_PAPER" ∷ "SANDBOX" ∷ []) gate.broker_mode ≡ true)
        × ((gate.broker_mode ≡ dashes_to_underscores (upper i.broker_mode))
            × IsSafe repository i gate.broker_mode (subjects_for repository i gate.broker_mode))
  unfolding evaluate_execution_safety_gate execution_gate_for
  allowed_gate-IsSafe repository i gate e h =
      elim (Result-cases (normalize_gate_mode i.broker_mode)) [
        | inl (why, refused) ↦
            absurd (ok≢err (sym (rw (evaluate_execution_safety_gate, refused) at e)))
        | inr (mode, normal) ↦
            let same = ok_injective (rw (evaluate_execution_safety_gate, normal) at e) in
            let (known, from_request) = normalized_mode i.broker_mode mode normal in
            subst
              (λ (m : String).
                (contains ("EXTERNAL_PAPER" ∷ "SANDBOX" ∷ []) m ≡ true)
                × ((m ≡ dashes_to_underscores (upper i.broker_mode))
                    × IsSafe repository i m (subjects_for repository i m)))
              (ap (λ (g : ExecutionSafetyGate F). g.broker_mode) same)
              (
                known,
                (
                  from_request,
                  checks_pass-IsSafe repository i mode (subjects_for repository i mode)
                      (ap (λ (g : ExecutionSafetyGate F). g.allowed) same ∙ h),
                ),
              )
      ]
