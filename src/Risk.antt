-- ===== src/Risk.antt =====
-- risk.py: the risk check of a portfolio against drawdown and exposure limits.
pub mod Drawdown
pub mod Status
use paper_forecast_loop.Prelude.{
  ℕ, String, Bool, true, false, Option, none, some, List, [], ◌∷◌, ◌++◌, if◌then◌else◌, is_empty,
  last?, map, length,
}
use paper_forecast_loop.Prelude.Text.{concat}
use paper_forecast_loop.Runtime.{Runtime, zero_point, max_of}
use paper_forecast_loop.Models.Portfolio.{EquityCurvePoint, PaperPortfolioSnapshot, RiskSnapshot}
use paper_forecast_loop.Models.Portfolio.Ids.{build_risk_id}
use paper_forecast_loop.Models.Portfolio.Snapshots.{empty_portfolio, position_pct_for}
use paper_forecast_loop.Storage.{ArtifactRepository, save_risk_snapshot}
use paper_forecast_loop.ResearchGates.{flag_if}

-- The arguments of `evaluate_risk`.
pub record RiskRequest (F : Type 0) : Type 0 where
  pub symbol : String
  pub now : ℕ
  pub max_position_pct : F
  pub max_gross_exposure_pct : F
  pub reduce_risk_drawdown_pct : F
  pub stop_new_entries_drawdown_pct : F

-- The three texts of `_risk_status`.
pub record RiskStatus : Type 0 where
  pub status : String
  pub severity : String
  pub recommended_action : String

module _ {F : Type 0} (rt : Runtime F) where
  -- `max([x, *xs])`
  abbrev pub largest : F → List F → F
  largest x [] = x
  largest x (y ∷ ys) = largest (max_of rt x y) ys

  -- here an empty portfolio is not stored
  abbrev pub portfolio_or_empty : ArtifactRepository F → ℕ → PaperPortfolioSnapshot F
  portfolio_or_empty repository now = elim (last? repository.portfolio_snapshots) [
    | some snapshot ↦ snapshot
    | none ↦ empty_portfolio rt now (rt.dec 10000 0)
  ]

  unfoldable pub current_drawdown_pct : PaperPortfolioSnapshot F → List (EquityCurvePoint F) → F
  current_drawdown_pct portfolio equity_curve =
      let peak = largest portfolio.equity (map (λ p. p.equity) equity_curve) in
      if rt.le peak (zero_point rt)
      then zero_point rt
      else max_of rt (zero_point rt) (rt.div (rt.sub peak portfolio.equity) peak)

  abbrev recorded : List (EquityCurvePoint F) → List F
  recorded [] = []
  recorded (p ∷ points) = elim p.max_drawdown_pct [
    | none ↦ recorded points
    | some d ↦ d ∷ recorded points
  ]

  -- `max` of a list that is not empty
  abbrev largest_of : List F → F → F
  largest_of [] x = x
  largest_of (y ∷ ys) x = largest y (ys ++ x ∷ [])

  unfoldable pub max_drawdown_pct : PaperPortfolioSnapshot F → List (EquityCurvePoint F) → F → F
  max_drawdown_pct portfolio equity_curve current_drawdown =
      largest_of
        (recorded equity_curve ++ elim portfolio.max_drawdown_pct [ none ↦ [] | some d ↦ d ∷ [] ])
        current_drawdown

  unfoldable pub risk_status : F → F → List String → RiskStatus
  risk_status current_drawdown stop_new_entries_drawdown_pct findings =
      if rt.le stop_new_entries_drawdown_pct current_drawdown
      then record {
        status = "STOP_NEW_ENTRIES";
        severity = "blocking";
        recommended_action = "STOP_NEW_ENTRIES";
      }
      else if is_empty findings
      then record { status = "OK"; severity = "none"; recommended_action = "HOLD" }
      else record {
        status = "REDUCE_RISK";
        severity = "warning";
        recommended_action = "REDUCE_RISK";
      }

  abbrev over : String → F → String → F → String
  over what value limit bound =
      concat (what ∷ " " ∷ rt.percent value ∷ limit ∷ rt.percent bound ∷ [])

  unfoldable pub risk_findings : RiskRequest F → PaperPortfolioSnapshot F → F → List String
  risk_findings r portfolio current_drawdown =
      let position_pct = position_pct_for rt portfolio r.symbol in
      (if rt.le r.stop_new_entries_drawdown_pct current_drawdown
        then over "current_drawdown" current_drawdown " >= stop threshold "
            r.stop_new_entries_drawdown_pct
          ∷ []
        else flag_if (rt.le r.reduce_risk_drawdown_pct current_drawdown) (
            over "current_drawdown" current_drawdown " >= reduce-risk threshold "
              r.reduce_risk_drawdown_pct))
      ++ (flag_if (rt.lt r.max_gross_exposure_pct portfolio.gross_exposure_pct) (
            over "gross_exposure" portfolio.gross_exposure_pct " > limit " r.max_gross_exposure_pct)
          ++ flag_if (rt.lt r.max_position_pct (rt.abs position_pct))
              (over "position" position_pct " > limit " r.max_position_pct))

  unfoldable pub risk_snapshot_for :
      RiskRequest F → PaperPortfolioSnapshot F → List (EquityCurvePoint F) → RiskSnapshot F
  risk_snapshot_for r portfolio equity_curve =
      let current_drawdown = current_drawdown_pct portfolio equity_curve in
      let max_drawdown = max_drawdown_pct portfolio equity_curve current_drawdown in
      let position_pct = position_pct_for rt portfolio r.symbol in
      let findings = risk_findings r portfolio current_drawdown in
      let s = risk_status current_drawdown r.stop_new_entries_drawdown_pct findings in
      record {
        risk_id =
            build_risk_id rt r.now r.symbol s.status current_drawdown portfolio.gross_exposure_pct
              findings;
        created_at = r.now;
        symbol = r.symbol;
        status = s.status;
        severity = s.severity;
        current_drawdown_pct = current_drawdown;
        max_drawdown_pct = max_drawdown;
        gross_exposure_pct = portfolio.gross_exposure_pct;
        net_exposure_pct = portfolio.net_exposure_pct;
        position_pct = position_pct;
        max_position_pct = r.max_position_pct;
        max_gross_exposure_pct = r.max_gross_exposure_pct;
        reduce_risk_drawdown_pct = r.reduce_risk_drawdown_pct;
        stop_new_entries_drawdown_pct = r.stop_new_entries_drawdown_pct;
        findings = findings;
        recommended_action = s.recommended_action;
        decision_basis = concat (
            "status="
            ∷ s.status
            ∷ "; current_drawdown="
            ∷ rt.show current_drawdown
            ∷ "; max_drawdown="
            ∷ rt.show max_drawdown
            ∷ "; gross_exposure="
            ∷ rt.show portfolio.gross_exposure_pct
            ∷ "; net_exposure="
            ∷ rt.show portfolio.net_exposure_pct
            ∷ "; position_pct="
            ∷ rt.show position_pct
            ∷ "; findings="
            ∷ rt.show_nat (length findings)
            ∷ []);
      }

  unfoldable pub evaluate_risk :
      ArtifactRepository F → RiskRequest F → RiskSnapshot F × ArtifactRepository F
  evaluate_risk repository r =
      let snapshot =
        risk_snapshot_for r (portfolio_or_empty repository r.now) repository.equity_curve_points in
      (snapshot, save_risk_snapshot snapshot repository)
