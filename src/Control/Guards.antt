-- ===== src/Control/Guards.antt =====
-- When the control state holds a paper order back (control.py, `paper_order_control_block_reason`).
use paper_forecast_loop.Prelude.{
  String, ◌≡◌, ◌≢◌, ◌↔◌, true, false, Option, none, some, List, ◌==◌, arith, refl,
}
use paper_forecast_loop.Prelude.Text.{is_text, not_is_text}
use paper_forecast_loop.Runtime.{Runtime, IsIeee}
use paper_forecast_loop.Models.Trading.{StrategyDecision, PaperControlEvent}
use paper_forecast_loop.Control.{
  PaperControlState, current_control_state, exceeds, paper_order_control_block_reason,
}
use paper_forecast_loop.Control.State.{IsConsistent, current_control_state-IsConsistent}

module _ {F : Type 0} (rt : Runtime F) where
  -- What an order needs of the controls. A purchase needs more than a sale.
  pub record IsPermitted (s : PaperControlState F) (d : StrategyDecision F) : Type 0 where
    pub running : s.emergency_stop ≡ false
    pub unpaused : s.paused ≡ false
    pub entries_open : (d.action == "BUY") ≡ true → s.stop_new_entries ≡ false
    pub risk_open : (d.action == "BUY") ≡ true → s.reduce_risk ≡ false
    pub within_cap :
        (d.action == "BUY") ≡ true
        → exceeds rt s.max_position_pct d.recommended_position_pct ≡ false

  -- There is no block reason exactly when no emergency stop and no pause is on and, for a BUY, new
  -- entries and risk are not stopped and the recommended position does not exceed the cap.
  pub block_reason_exact :
      (s : PaperControlState F) (d : StrategyDecision F)
      → (paper_order_control_block_reason rt s d ≡ none) ↔ IsPermitted s d
  unfolding paper_order_control_block_reason
  block_reason_exact s d = (λ h. ground arith, λ h. ground arith)

  consistent_hides_reduce_risk :
      (s : PaperControlState F) (d : StrategyDecision F)
      → IsConsistent s
      → is_text (paper_order_control_block_reason rt s d) "control_reduce_risk" ≡ false
  unfolding paper_order_control_block_reason
  consistent_hides_reduce_risk s d h = ground arith

  -- A state computed from a log never gives the reason "control_reduce_risk": the reduction of risk
  -- that it names always comes with a stop of new entries, which is tested first.
  pub reduce_risk_reason_unreachable :
      (events : List (PaperControlEvent F)) (symbol : Option String) (d : StrategyDecision F)
      → paper_order_control_block_reason rt (current_control_state events symbol) d
        ≢ some "control_reduce_risk"
  reduce_risk_reason_unreachable events symbol d = not_is_text _ _ (
      consistent_hides_reduce_risk (current_control_state events symbol) d
        (current_control_state-IsConsistent events symbol))

  exceeds_nan :
      IsIeee rt → (m : F) (r : Option F) → rt.le m m ≡ false → exceeds rt (some m) r ≡ false
  exceeds_nan laws m none h = refl
  exceeds_nan laws m (some r) h = laws.lt_nan_left m r h

  -- A cap that is NaN holds no order back: it acts as if there were no cap.
  pub nan_cap_is_no_cap :
      IsIeee rt
      → (s : PaperControlState F) (d : StrategyDecision F) (m : F) → rt.le m m ≡ false
      → s.max_position_pct ≡ some m
      → paper_order_control_block_reason rt s d
        ≡ paper_order_control_block_reason rt (record s { max_position_pct = none }) d
  unfolding paper_order_control_block_reason
  nan_cap_is_no_cap laws s d m h e = ground (arith, exceeds_nan laws m d.recommended_position_pct)
