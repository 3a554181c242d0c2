-- ===== src/Decision/Generate.antt =====
-- The decision itself (decision.py): the evidence is gathered from the repository, the verdict is
-- recorded, and the baseline, the decision and a first portfolio snapshot are stored.
use paper_forecast_loop.Prelude.{
  ℕ, String, Bool, false, Option, none, some, List, [], ◌∷◌, ◌==◌, if◌then◌else◌, keep, last?,
}
use paper_forecast_loop.Prelude.Text.{concat, or_text}
use paper_forecast_loop.Runtime.{Runtime, zero_point}
use paper_forecast_loop.Models.Research.{Forecast, BaselineEvaluation}
use paper_forecast_loop.Models.Trading.{StrategyDecision, HealthCheckResult}
use paper_forecast_loop.Models.Trading.Ids.{build_decision_id}
use paper_forecast_loop.Models.Portfolio.{RiskSnapshot, PaperPortfolioSnapshot}
use paper_forecast_loop.Models.Portfolio.Snapshots.{position_pct_for}
use paper_forecast_loop.Storage.{
  ArtifactRepository, save_baseline_evaluation, save_strategy_decision,
}
use paper_forecast_loop.Baselines.{build_baseline_evaluation}
use paper_forecast_loop.ResearchGates.{ResearchGateResult, show_option, evaluate_research_gates}
use paper_forecast_loop.Decision.{Verdict, Evidence, verdict}
use paper_forecast_loop.Decision.Selection.{
  latest_for_symbol, latest_backtest_for_research, latest_risk_snapshot, review_ids_for_baseline,
  latest_or_empty_portfolio,
}

-- The arguments of `generate_strategy_decision`.
pub record DecisionRequest (F : Type 0) : Type 0 where
  pub symbol : String
  pub horizon_hours : ℕ
  pub now : ℕ
  pub health_result : Option HealthCheckResult
  pub risk_snapshot : Option (RiskSnapshot F)
  pub max_position_pct : F
  pub stale_after_hours : ℕ
  pub risk_stale_after_hours : ℕ

abbrev pub repair_required : Option HealthCheckResult → Bool
repair_required none = false
repair_required (some result) = result.repair_required

-- `x or 'none'`
abbrev pub or_none : Option String → String
or_none none = "none"
or_none (some s) = or_text s "none"

abbrev repair_conditions : List String
repair_conditions =
    "health-check repair request 已處理完成。" ∷ "storage artifacts 可正常讀取且 health-check 回到 healthy。"
    ∷ "重新產生最新 forecast 與 strategy decision。" ∷ []

abbrev invalidation_conditions : List String
invalidation_conditions =
    "新的 provider 資料推翻最新 forecast regime。"
    ∷ "health-check 回報 storage、scoring 或 dashboard integrity 的 blocking 問題。"
    ∷ "risk-check 缺少或過期，無法確認 drawdown 與曝險 gate。" ∷ "近期模型分數跌破決策門檻。" ∷ []

module _ {F : Type 0} where
  abbrev pub scoped_forecasts : ArtifactRepository F → String → List (Forecast F)
  scoped_forecasts repository symbol = keep (λ f. f.symbol == symbol) repository.forecasts

  -- `risk_snapshot or _latest_risk_snapshot(repository, symbol)`
  abbrev pub risk_for : ArtifactRepository F → DecisionRequest F → Option (RiskSnapshot F)
  risk_for repository r = elim r.risk_snapshot [
    | some risk ↦ some risk
    | none ↦ latest_risk_snapshot repository.risk_snapshots r.symbol
  ]

  abbrev pub forecast_ids_of : Option (Forecast F) → List String
  forecast_ids_of none = []
  forecast_ids_of (some f) = f.forecast_id ∷ []

  abbrev risk_basis : Option (RiskSnapshot F) → String
  risk_basis none = "none"
  risk_basis (some risk) = concat (risk.risk_id ∷ ":" ∷ risk.status ∷ [])

module _ {F : Type 0} (rt : Runtime F) where
  unfoldable pub build_fail_closed :
      String → ℕ → ℕ → String → String → Option String → StrategyDecision F
  build_fail_closed symbol horizon_hours created_at blocked_reason reason_summary
        repair_request_id =
      let decision_basis = concat (
        "action=STOP_NEW_ENTRIES; evidence_grade=INSUFFICIENT; blocked_reason="
        ∷ blocked_reason
        ∷ "; repair_request_id="
        ∷ or_none repair_request_id
        ∷ []) in
      record {
        decision_id =
            build_decision_id rt symbol horizon_hours "STOP_NEW_ENTRIES" [] [] [] [] decision_basis;
        created_at = created_at;
        symbol = symbol;
        horizon_hours = horizon_hours;
        action = "STOP_NEW_ENTRIES";
        confidence = none;
        evidence_grade = "INSUFFICIENT";
        risk_level = "HIGH";
        tradeable = false;
        blocked_reason = some blocked_reason;
        recommended_position_pct = some (zero_point rt);
        current_position_pct = none;
        max_position_pct = rt.dec 15 2;
        invalidation_conditions = repair_conditions;
        reason_summary = reason_summary;
        forecast_ids = [];
        score_ids = [];
        review_ids = [];
        baseline_ids = [];
        decision_basis = decision_basis;
      }

  unfoldable pub decision_basis :
      String
      → BaselineEvaluation F
      → Option String
      → Option (RiskSnapshot F)
      → ResearchGateResult
      → String
  decision_basis action baseline blocked_reason risk_snapshot research_gate = concat (
      "action="
      ∷ action
      ∷ "; evidence_grade="
      ∷ baseline.evidence_grade
      ∷ "; sample_size="
      ∷ rt.show_nat baseline.sample_size
      ∷ "; model_edge="
      ∷ show_option rt baseline.model_edge
      ∷ "; recent_score="
      ∷ show_option rt baseline.recent_score
      ∷ "; risk="
      ∷ risk_basis risk_snapshot
      ∷ "; blocked_reason="
      ∷ or_none blocked_reason
      ∷ "; "
      ∷ research_gate.decision_basis
      ∷ [])

  -- the decision that records a verdict
  unfoldable pub decision_of : Evidence F → Verdict F → ℕ → List String → StrategyDecision F
  decision_of e v horizon_hours review_ids =
      let forecast_ids = forecast_ids_of e.latest_forecast in
      let baseline_ids = e.baseline.baseline_id ∷ [] in
      let basis =
        decision_basis v.action e.baseline v.blocked_reason e.risk_snapshot e.research_gate in
      record {
        decision_id =
            build_decision_id rt e.symbol horizon_hours v.action forecast_ids e.baseline.score_ids
              review_ids baseline_ids basis;
        created_at = e.now;
        symbol = e.symbol;
        horizon_hours = horizon_hours;
        action = v.action;
        confidence = elim e.latest_forecast [ none ↦ none | some f ↦ f.confidence ];
        evidence_grade = v.evidence_grade;
        risk_level = v.risk_level;
        tradeable = v.tradeable;
        blocked_reason = v.blocked_reason;
        recommended_position_pct = some v.recommended_position_pct;
        current_position_pct = some e.current_position_pct;
        max_position_pct = e.max_position_pct;
        invalidation_conditions = invalidation_conditions;
        reason_summary = v.reason_summary;
        forecast_ids = forecast_ids;
        score_ids = e.baseline.score_ids;
        review_ids = review_ids;
        baseline_ids = baseline_ids;
        decision_basis = basis;
      }

  abbrev pub baseline_for : ArtifactRepository F → DecisionRequest F → BaselineEvaluation F
  baseline_for repository r =
      build_baseline_evaluation rt r.symbol r.now (scoped_forecasts repository r.symbol)
        repository.scores 5

  abbrev pub gate_for : ArtifactRepository F → DecisionRequest F → ResearchGateResult
  gate_for repository r =
      evaluate_research_gates rt (baseline_for repository r)
        (latest_backtest_for_research repository.backtest_results repository.backtest_runs r.symbol
          none none)
        (latest_for_symbol (λ w. w.symbol) (λ w. w.created_at) repository.walk_forward_validations
          r.symbol)
        (latest_for_symbol (λ e. e.symbol) (λ e. e.created_at) repository.event_edge_evaluations
          r.symbol)
        5 (zero_point rt) (rt.dec 25 2)

  unfoldable pub evidence_for :
      ArtifactRepository F → DecisionRequest F → PaperPortfolioSnapshot F → Evidence F
  evidence_for repository r portfolio = record {
    symbol = r.symbol;
    now = r.now;
    latest_forecast = last? (scoped_forecasts repository r.symbol);
    risk_snapshot = risk_for repository r;
    baseline = baseline_for repository r;
    research_gate = gate_for repository r;
    current_position_pct = position_pct_for rt portfolio r.symbol;
    max_position_pct = r.max_position_pct;
    stale_after_hours = r.stale_after_hours;
    risk_stale_after_hours = r.risk_stale_after_hours;
  }

  -- the decision on a repository that needs no repair
  unfoldable pub decide :
      ArtifactRepository F → DecisionRequest F → StrategyDecision F × ArtifactRepository F
  decide repository r =
      let baseline = baseline_for repository r in
      let stored = save_baseline_evaluation baseline repository in
      let (portfolio, after) = latest_or_empty_portfolio rt stored r.now in
      let e = evidence_for repository r portfolio in
      let decision =
        decision_of e (verdict rt e) r.horizon_hours
          (review_ids_for_baseline repository.reviews baseline) in
      (decision, save_strategy_decision decision after)

  abbrev repair_request_of : Option HealthCheckResult → Option String
  repair_request_of none = none
  repair_request_of (some result) = result.repair_request_id

  unfoldable pub generate_strategy_decision :
      ArtifactRepository F → DecisionRequest F → StrategyDecision F × ArtifactRepository F
  generate_strategy_decision repository r =
      if repair_required r.health_result
      then (let decision =
            build_fail_closed r.symbol r.horizon_hours r.now "health_check_repair_required"
              "health-check 需要修復；Codex 修復完成前停止新進場。" (repair_request_of r.health_result) in
          (decision, save_strategy_decision decision repository))
      else decide repository r
