-- ===== src/Risk/Status.antt =====
-- What the status of a risk snapshot says, and what it holds back (risk.py, and decision.py with it).
use paper_forecast_loop.Prelude.{
  String, ◌≡◌, refl, sym, ◌∙◌, ◌↔◌, ◌⊎◌, inl, inr, Bool, true, false, not, ◌&&◌, some, List, [],
  ◌∷◌, ◌++◌, ◌==◌, is_empty, if◌then◌else◌, arith, Bool-cases,
}
use mathlib.Core.Bool.{false≢true}
use paper_forecast_loop.Prelude.Text.{contains}
use paper_forecast_loop.Runtime.{Runtime}
use paper_forecast_loop.Models.Portfolio.{PaperPortfolioSnapshot, RiskSnapshot}
use paper_forecast_loop.Models.Portfolio.Snapshots.{position_pct_for}
use paper_forecast_loop.Storage.{ArtifactRepository, save_risk_snapshot}
use paper_forecast_loop.ResearchGates.{flag_if}
use paper_forecast_loop.Risk.{
  RiskRequest, RiskStatus, portfolio_or_empty, current_drawdown_pct, risk_status, risk_findings,
  risk_snapshot_for, evaluate_risk,
}
use paper_forecast_loop.Decision.Generate.{DecisionRequest, generate_strategy_decision}
use paper_forecast_loop.Decision.Effect.{directional-IsJustified}

all_off :
    (a b c d : Bool)
    → a ≡ false
    → b ≡ false
    → c ≡ false
    → d ≡ false
    → (not a && not b && not c && not d) ≡ true
all_off a b c d p q r s = ground arith

off_all :
    (a b c d : Bool)
    → (not a && not b && not c && not d) ≡ true
    → (a ≡ false) × (b ≡ false) × (c ≡ false) × (d ≡ false)
off_all a b c d h = ground arith

module _ {F : Type 0} (rt : Runtime F) where
  -- the status, with the tests and the texts of the findings left open
  abbrev status_of : Bool → List String → RiskStatus
  status_of stops findings =
      if stops
      then record {
        status = "STOP_NEW_ENTRIES";
        severity = "blocking";
        recommended_action = "STOP_NEW_ENTRIES";
      }
      else if is_empty findings
      then record { status = "OK"; severity = "none"; recommended_action = "HOLD" }
      else record {
        status = "REDUCE_RISK";
        severity = "warning";
        recommended_action = "REDUCE_RISK";
      }

  status_of-stop :
      (stops : Bool) (findings : List String)
      → ((status_of stops findings).status == "STOP_NEW_ENTRIES") ≡ stops
  status_of-stop true findings = refl
  status_of-stop false [] = refl
  status_of-stop false (x ∷ findings) = refl

  status_of-ok :
      (stops reduces gross position : Bool) (a b c d : String)
      → ((status_of stops (
            (if stops then a ∷ [] else flag_if reduces b)
            ++ (flag_if gross c ++ flag_if position d))).status
          == "OK")
        ≡ (not stops && not reduces && not gross && not position)
  status_of-ok true reduces gross position a b c d = refl
  status_of-ok false true gross position a b c d = refl
  status_of-ok false false true position a b c d = refl
  status_of-ok false false false true a b c d = refl
  status_of-ok false false false false a b c d = refl

  -- a snapshot that is not OK stops or reduces
  status_of-cases :
      (stops : Bool) (findings : List String)
      → ((status_of stops findings).status == "OK") ≡ false
      → (((status_of stops findings).status == "STOP_NEW_ENTRIES") ≡ true)
        ⊎ (((status_of stops findings).status == "REDUCE_RISK") ≡ true)
  status_of-cases true findings h = inl refl
  status_of-cases false [] h = cc
  status_of-cases false (x ∷ findings) h = inr refl

  pub record IsWithinLimits (r : RiskRequest F) (portfolio : PaperPortfolioSnapshot F)
      (drawdown : F) : Type 0 where
    pub no_stop : rt.le r.stop_new_entries_drawdown_pct drawdown ≡ false
    pub no_reduction : rt.le r.reduce_risk_drawdown_pct drawdown ≡ false
    pub gross_kept : rt.lt r.max_gross_exposure_pct portfolio.gross_exposure_pct ≡ false
    pub position_kept :
        rt.lt r.max_position_pct (rt.abs (position_pct_for rt portfolio r.symbol)) ≡ false

  module _ (repository : ArtifactRepository F) (r : RiskRequest F) where
    abbrev portfolio : PaperPortfolioSnapshot F
    portfolio = portfolio_or_empty rt repository r.now

    abbrev drawdown : F
    drawdown = current_drawdown_pct rt portfolio repository.equity_curve_points

    abbrev snapshot : RiskSnapshot F
    snapshot = (evaluate_risk rt repository r).0

    -- The stored snapshot stops new entries exactly when the drawdown has reached the stop threshold,
    -- and is OK exactly when the drawdown is below both thresholds, and gross exposure and position
    -- are within their limits.
    pub risk_status_exact :
        ((evaluate_risk rt repository r).1 ≡ save_risk_snapshot snapshot repository)
        × ((snapshot.status == "STOP_NEW_ENTRIES") ≡ rt.le r.stop_new_entries_drawdown_pct drawdown)
        × (((snapshot.status == "OK") ≡ true) ↔ IsWithinLimits r portfolio drawdown)
    unfolding evaluate_risk risk_snapshot_for risk_status risk_findings
    risk_status_exact = (refl, status_of-stop _ _, (within, λ w. ok_tests ∙ none_of w))
      where
        stops : Bool
        stops = rt.le r.stop_new_entries_drawdown_pct drawdown

        reduces : Bool
        reduces = rt.le r.reduce_risk_drawdown_pct drawdown

        gross : Bool
        gross = rt.lt r.max_gross_exposure_pct portfolio.gross_exposure_pct

        position : Bool
        position = rt.lt r.max_position_pct (rt.abs (position_pct_for rt portfolio r.symbol))

        ok_tests :
            (snapshot.status == "OK") ≡ (not stops && not reduces && not gross && not position)
        ok_tests = status_of-ok stops reduces gross position _ _ _ _

        none_of :
            IsWithinLimits r portfolio drawdown
            → (not stops && not reduces && not gross && not position) ≡ true
        none_of w =
            all_off stops reduces gross position w.no_stop w.no_reduction w.gross_kept
              w.position_kept

        within : (snapshot.status == "OK") ≡ true → IsWithinLimits r portfolio drawdown
        within h =
            let (a, b, c, d) = off_all stops reduces gross position (sym ok_tests ∙ h) in
            record { no_stop = a; no_reduction = b; gross_kept = c; position_kept = d }

    -- While the risk check of the repository does not say OK, no decision that is made with its
    -- snapshot buys or sells, on whatever repository it is made.
    pub risk_holds_directions :
        (later : ArtifactRepository F) (d : DecisionRequest F)
        → (snapshot.status == "OK") ≡ false
        → let request = record d { risk_snapshot = some snapshot } in
          contains ("BUY" ∷ "SELL" ∷ []) (generate_strategy_decision rt later request).0.action
          ≡ false
    unfolding evaluate_risk risk_snapshot_for risk_status
    risk_holds_directions later d bad =
        let request = record d { risk_snapshot = some snapshot } in
        elim (Bool-cases
          (contains ("BUY" ∷ "SELL" ∷ []) (generate_strategy_decision rt later request).0.action)) [
            | inr held ↦ held
            | inl directional ↦
                let justified = directional-IsJustified rt later request directional in
                elim (status_of-cases _ _ bad) [
                  | inl stops ↦ absurd (false≢true (sym justified.no_stop ∙ stops))
                  | inr reduces ↦ absurd (false≢true (sym justified.no_reduction ∙ reduces))
                ]
          ]
