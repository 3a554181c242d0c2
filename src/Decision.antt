-- ===== src/Decision.antt =====
-- decision.py: the strategy decision for the next horizon. `verdict` is the chain of branches over
-- the gathered evidence; `generate_strategy_decision` gathers it, and stores the result.
pub mod Selection
pub mod Actions
pub mod Generate
pub mod Effect
use paper_forecast_loop.Prelude.{
  ℕ, ◌+◌, String, Bool, true, false, not, ◌&&◌, ◌||◌, Option, none, some, List, [], ◌∷◌, ◌==◌,
  if◌then◌else◌, ltb, keep, last?, is_none,
}
use paper_forecast_loop.Prelude.Text.{contains, concat}
use paper_forecast_loop.Runtime.{Runtime, zero_point, max_of, min_of}
use paper_forecast_loop.Models.Research.{Forecast, BaselineEvaluation}
use paper_forecast_loop.Models.Trading.{StrategyDecision, HealthCheckResult}
use paper_forecast_loop.Models.Trading.Ids.{build_decision_id}
use paper_forecast_loop.Models.Portfolio.{RiskSnapshot}
use paper_forecast_loop.Models.Portfolio.Snapshots.{position_pct_for}
use paper_forecast_loop.Storage.{
  ArtifactRepository, save_baseline_evaluation, save_strategy_decision,
}
use paper_forecast_loop.Baselines.{build_baseline_evaluation, bullish_regimes, bearish_regimes}
use paper_forecast_loop.ResearchGates.{ResearchGateResult, evaluate_research_gates}
use Selection.{
  hours, latest_for_symbol, latest_backtest_for_research, latest_risk_snapshot, risk_blocked_reason,
  review_ids_for_baseline, latest_or_empty_portfolio, with_research_blockers,
}

-- The variables that the branches assign.
pub record Verdict (F : Type 0) : Type 0 where
  pub action : String
  pub tradeable : Bool
  pub blocked_reason : Option String
  pub reason_summary : String
  pub risk_level : String
  pub recommended_position_pct : F
  pub evidence_grade : String

-- What the branches read.
pub record Evidence (F : Type 0) : Type 0 where
  pub symbol : String
  pub now : ℕ
  pub latest_forecast : Option (Forecast F)
  pub risk_snapshot : Option (RiskSnapshot F)
  pub baseline : BaselineEvaluation F
  pub research_gate : ResearchGateResult
  pub current_position_pct : F
  pub max_position_pct : F
  pub stale_after_hours : ℕ
  pub risk_stale_after_hours : ℕ

-- `latest_forecast.predicted_regime in regimes`
abbrev pub regime_in : List String → Option String → Bool
regime_in regimes none = false
regime_in regimes (some regime) = contains regimes regime

-- `research_gate.recommended_action == "REDUCE_RISK"`
abbrev pub gate_reduces : ResearchGateResult → Bool
gate_reduces gate = elim gate.recommended_action [ none ↦ false | some a ↦ a == "REDUCE_RISK" ]

module _ {F : Type 0} where
  -- `risk_snapshot is not None and risk_snapshot.status == status`
  abbrev pub risk_is : Option (RiskSnapshot F) → String → Bool
  risk_is none status = false
  risk_is (some risk) status = risk.status == status

module _ {F : Type 0} (rt : Runtime F) where
  -- `baseline.model_edge is None or baseline.model_edge <= 0`
  abbrev pub edge_fails : Option F → Bool
  edge_fails none = true
  edge_fails (some edge) = rt.le edge (zero_point rt)

  abbrev capped : Evidence F → F
  capped e = min_of rt e.current_position_pct e.max_position_pct

  abbrev halved : Evidence F → F
  halved e = max_of rt (zero_point rt) (rt.mul (capped e) (rt.dec 5 1))

  abbrev hold : Evidence F → Option String → String → String → Verdict F
  hold e blocked_reason reason_summary risk_level = record {
    action = "HOLD";
    tradeable = false;
    blocked_reason = blocked_reason;
    reason_summary = reason_summary;
    risk_level = risk_level;
    recommended_position_pct = e.current_position_pct;
    evidence_grade = e.baseline.evidence_grade;
  }

  abbrev stop : Evidence F → String → String → F → String → Verdict F
  stop e blocked_reason reason_summary recommended evidence_grade = record {
    action = "STOP_NEW_ENTRIES";
    tradeable = false;
    blocked_reason = some blocked_reason;
    reason_summary = reason_summary;
    risk_level = "HIGH";
    recommended_position_pct = recommended;
    evidence_grade = evidence_grade;
  }

  abbrev reduce : Evidence F → String → String → String → Verdict F
  reduce e no_position reason_summary risk_level =
      let tradeable = rt.lt (zero_point rt) e.current_position_pct in
      record {
        action = "REDUCE_RISK";
        tradeable = tradeable;
        blocked_reason = if tradeable then none else some no_position;
        reason_summary = reason_summary;
        risk_level = risk_level;
        recommended_position_pct = halved e;
        evidence_grade = e.baseline.evidence_grade;
      }

  abbrev directional : Evidence F → String → String → F → Verdict F
  directional e action reason_summary recommended = record {
    action = action;
    tradeable = true;
    blocked_reason = none;
    reason_summary = reason_summary;
    risk_level = "MEDIUM";
    recommended_position_pct = recommended;
    evidence_grade = e.baseline.evidence_grade;
  }

  -- the branches on the forecast's regime
  unfoldable pub regime_verdict : Evidence F → Option String → Verdict F
  regime_verdict e regime =
      let risk_blocked =
        risk_blocked_reason e.risk_snapshot e.symbol e.now e.risk_stale_after_hours in
      if regime_in bullish_regimes regime
      then elim risk_blocked [
        | some why ↦
            stop e why "方向性買進需要新鮮 risk-check；缺少風險證據時停止新進場。" (capped e) e.baseline.evidence_grade
        | none ↦ directional e "BUY" "最新 forecast 偏多，且模型證據在品質足夠時打贏 baseline。" e.max_position_pct
      ]
      else if regime_in bearish_regimes regime
      then elim risk_blocked [
        | some why ↦
            stop e why "方向性賣出需要新鮮 risk-check；缺少風險證據時停止新進場。" (capped e) e.baseline.evidence_grade
        | none ↦ directional e "SELL" "最新 forecast 偏空，且模型證據在品質足夠時打贏 baseline。" (zero_point rt)
      ]
      else hold e (some "unknown_forecast_regime") "最新 forecast regime 方向性不足，不應產生買進或賣出。" "UNKNOWN"

  -- the branches on the evidence for the model
  unfoldable pub evidence_verdict : Evidence F → Option String → Verdict F
  evidence_verdict e regime =
      if e.baseline.evidence_grade == "INSUFFICIENT"
      then hold e (some "insufficient_evidence") "已評分 forecast 樣本不足，不足以支持買進或賣出。" "UNKNOWN"
      else if edge_fails e.baseline.model_edge
      then hold e (some "model_not_beating_baseline")
          (with_research_blockers "模型證據沒有打贏 naive persistence baseline，因此買進/賣出被擋住。"
            e.research_gate.flags)
          "MEDIUM"
      else if gate_reduces e.research_gate
      then reduce e "research_reduce_required_but_no_position"
          (with_research_blockers "研究品質 gate 偵測近期退化、回測風險或 walk-forward 風險，建議降低 paper 風險。"
            e.research_gate.flags)
          e.research_gate.risk_level
      else if not e.research_gate.directional_allowed
      then hold e e.research_gate.blocked_reason
          (with_research_blockers
            "研究品質 gate 未通過；BUY/SELL 在樣本、baseline、backtest、walk-forward 或 drawdown 證據不足時被擋住。"
            e.research_gate.flags)
          e.research_gate.risk_level
      else if not (contains ("A" ∷ "B" ∷ []) e.baseline.evidence_grade)
      then hold e (some "evidence_grade_too_weak_for_directional_action") "證據方向偏正面，但強度不足以支持買進或賣出。"
          "MEDIUM"
      else regime_verdict e regime

  -- the branches on freshness and risk, which come first
  unfoldable pub for_forecast : Evidence F → Option (Forecast F) → Verdict F
  for_forecast e none =
      stop e "missing_latest_forecast" "目前沒有最新 forecast；系統不能產生方向性的 paper-only 決策。" (zero_point rt)
        "INSUFFICIENT"
  for_forecast e (some forecast) =
      if ltb (forecast.anchor_time + hours e.stale_after_hours) e.now
      then stop e "latest_forecast_stale" "最新 forecast 已超過允許時效；停止新進場直到資料恢復新鮮。" (capped e)
          "INSUFFICIENT"
      else if risk_is e.risk_snapshot "STOP_NEW_ENTRIES"
      then stop e "risk_stop_new_entries" "風險檢查觸發停止新進場 gate；暫停方向性 paper order。" (capped e)
          e.baseline.evidence_grade
      else if risk_is e.risk_snapshot "REDUCE_RISK"
      then reduce e "risk_reduce_required_but_no_position" "風險檢查偵測 drawdown 或曝險超標，建議先降低 paper 風險。"
          "HIGH"
      else evidence_verdict e forecast.predicted_regime

  unfoldable pub verdict : Evidence F → Verdict F
  unfolding for_forecast
  verdict e = for_forecast e e.latest_forecast
