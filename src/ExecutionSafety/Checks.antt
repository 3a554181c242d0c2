-- ===== src/ExecutionSafety/Checks.antt =====
-- The checks of the execution safety gate, each with its message.
use paper_forecast_loop.Prelude.{
  ℕ, String, Bool, true, false, not, ◌&&◌, Option, none, some, List, [], ◌∷◌, ◌==◌, if◌then◌else◌,
  leb, is_none, find?,
}
use paper_forecast_loop.Prelude.Text.{contains, concat, lower, or_text}
use paper_forecast_loop.Runtime.{Runtime, Dict, text, text_or_null}
use paper_forecast_loop.Models.Trading.{
  StrategyDecision, PaperControlEvent, PaperOrder, BrokerOrder, BrokerReconciliation,
}
use paper_forecast_loop.Models.Trading.Enums.{
  PaperOrderStatus, order_status_value, BrokerOrderStatus, broker_status_value, submitted,
  acknowledged, partially_filled,
}
use paper_forecast_loop.Models.Portfolio.{RiskSnapshot}
use paper_forecast_loop.Assets.{Asset}
use paper_forecast_loop.Control.{
  control_status, current_control_state, paper_order_control_block_reason,
}
use paper_forecast_loop.Orders.{orderable_actions}

pub record Check : Type 0 where
  pub code : String
  pub status : String
  pub severity : String
  pub message : String
  pub artifact_id : Option String

-- `_check`
abbrev pub check : String → Bool → String → Option String → Check
check code passed message artifact_id = record {
  code = code;
  status = if passed then "pass" else "fail";
  severity = if passed then "none" else "blocking";
  message = message;
  artifact_id = artifact_id;
}

-- `check["status"] == "pass"`
abbrev pub passed : Check → Bool
passed c = c.status == "pass"

abbrev pub check_to_dict : {F : Type 0} → Check → Dict F
check_to_dict c =
    ("code", text c.code)
    ∷ ("status", text c.status)
    ∷ ("severity", text c.severity)
    ∷ ("message", text c.message)
    ∷ ("artifact_id", text_or_null c.artifact_id)
    ∷ []

-- The keys of the dictionary `broker_health` that the gate reads: texts, if they are there.
pub record BrokerHealth : Type 0 where
  pub status : Option String
  pub mode : Option String
  pub live_trading_available : Bool

-- `EVIDENCE_RANK.get(grade, default)`
abbrev pub evidence_rank : String → ℕ → ℕ
evidence_rank grade default =
    if grade == "INSUFFICIENT"
    then 0
    else if grade == "D"
    then 1
    else if grade == "C"
    then 2
    else if grade == "B"
    then 3
    else if grade == "A"
    then 4
    else default

abbrev pub active_broker_order_statuses : List String
active_broker_order_statuses =
    broker_status_value BrokerOrderStatus.created
    ∷ broker_status_value submitted
    ∷ broker_status_value acknowledged
    ∷ broker_status_value partially_filled
    ∷ []

abbrev show_bool : Bool → String
show_bool true = "True"
show_bool false = "False"

abbrev show_text : Option String → String
show_text none = "None"
show_text (some s) = s

abbrev pub text_of : Option String → String
text_of none = ""
text_of (some s) = s

module _ {F : Type 0} where
  unfoldable pub decision_checks : Option (StrategyDecision F) → String → List Check
  decision_checks none min_grade = check "decision_exists" false "decision not found" none ∷ []
  decision_checks (some d) min_grade =
      check "decision_exists" true (concat ("decision_id=" ∷ d.decision_id ∷ []))
        (some d.decision_id)
      ∷ check "decision_tradeable" d.tradeable (concat ("tradeable=" ∷ show_bool d.tradeable ∷ []))
          (some d.decision_id)
      ∷ check "decision_action_orderable" (contains orderable_actions d.action)
          (concat ("action=" ∷ d.action ∷ [])) (some d.decision_id)
      ∷ check "evidence_grade" (leb (evidence_rank min_grade 3) (evidence_rank d.evidence_grade 0))
          (concat ("evidence_grade=" ∷ d.evidence_grade ∷ "; minimum=" ∷ min_grade ∷ []))
          (some d.decision_id)
      ∷ []

  abbrev pub buys : Option (StrategyDecision F) → Bool
  buys none = false
  buys (some d) = d.action == "BUY"

  unfoldable pub risk_checks : Option (RiskSnapshot F) → Option (StrategyDecision F) → List Check
  risk_checks none decision = check "risk_snapshot" false "risk snapshot missing" none ∷ []
  risk_checks (some risk) decision =
      let risk_passes = not (risk.severity == "blocking") in
      let risk_passes =
        if buys decision && not (risk.severity == "none") then false else risk_passes in
      check "risk_snapshot" true (concat ("risk_id=" ∷ risk.risk_id ∷ [])) (some risk.risk_id)
      ∷ check "risk_limits" risk_passes
          (concat ("risk_status=" ∷ risk.status ∷ "; severity=" ∷ risk.severity ∷ []))
          (some risk.risk_id)
      ∷ []

  unfoldable pub reconciliation_checks : Option (BrokerReconciliation F) → List Check
  reconciliation_checks none =
      check "broker_reconciliation" false "broker reconciliation missing" none ∷ []
  reconciliation_checks (some r) =
      check "broker_reconciliation" (not r.repair_required && not (r.severity == "blocking"))
        (concat (
          "reconciliation_status="
          ∷ r.status
          ∷ "; repair_required="
          ∷ show_bool r.repair_required
          ∷ []))
        (some r.reconciliation_id)
      ∷ []

  -- the tests for a duplicate order
  abbrev pub is_duplicate_paper : PaperOrder F → PaperOrder F → Bool
  is_duplicate_paper order item =
      not (item.order_id == order.order_id)
      && (item.symbol == order.symbol && item.status == order_status_value PaperOrderStatus.created)

  abbrev pub is_duplicate_broker : PaperOrder F → String → String → BrokerOrder F → Bool
  is_duplicate_broker order broker broker_mode item =
      item.symbol == order.symbol
      && (item.broker == broker
          && (item.broker_mode == broker_mode && contains active_broker_order_statuses item.status))

  abbrev paper_order_id_of : Option (PaperOrder F) → Option String
  paper_order_id_of none = none
  paper_order_id_of (some o) = some o.order_id

  abbrev broker_order_id_of : Option (BrokerOrder F) → Option String
  broker_order_id_of none = none
  broker_order_id_of (some o) = some o.broker_order_id

  -- a missing field is taken from the decision
  abbrev or_decided :
      (StrategyDecision F → Option F) → Option F → Option (StrategyDecision F) → Option F
  or_decided field (some x) decision = some x
  or_decided field none none = none
  or_decided field none (some d) = field d

-- `mode in (None, broker_mode)`
abbrev pub mode_passes : Option String → String → Bool
mode_passes none broker_mode = true
mode_passes (some mode) broker_mode = mode == broker_mode

unfoldable pub broker_health_checks : BrokerHealth → String → List Check
broker_health_checks broker_health broker_mode =
    let status = lower (text_of broker_health.status) in
    check "broker_health" (status == "healthy")
      (concat ("broker_health_status=" ∷ or_text status "missing" ∷ [])) none
    ∷ check "broker_mode" (mode_passes broker_health.mode broker_mode)
        (concat
          ("broker_health_mode=" ∷ show_text broker_health.mode ∷ "; expected=" ∷ broker_mode ∷ []))
        none
    ∷ check "broker_live_unavailable" (not broker_health.live_trading_available)
        "live_trading_available must be false" none
    ∷ []

unfoldable pub market_check : String → Option Asset → Bool → Check
market_check symbol none is_open =
    check "market_open" false (concat ("asset registry missing symbol=" ∷ symbol ∷ [])) none
market_check symbol (some asset) is_open =
    if asset.asset_class == "crypto"
    then check "market_open" true "crypto market is continuous" none
    else if asset.market == "US"
    then check "market_open" is_open (concat ("US market trading_day=" ∷ show_bool is_open ∷ []))
        none
    else check "market_open" false
        (concat ("unsupported market for execution gate: " ∷ asset.market ∷ [])) none

module _ {F : Type 0} (rt : Runtime F) where
  abbrev difference_of : Option F → Option F → Option F
  difference_of (some target) (some current) = some (rt.abs (rt.sub target current))
  difference_of none current = none
  difference_of (some target) none = none

  unfoldable pub order_delta : Option (StrategyDecision F) → PaperOrder F → Option F
  order_delta decision order =
      difference_of
        (or_decided (λ d. d.recommended_position_pct) order.target_position_pct decision)
        (or_decided (λ d. d.current_position_pct) order.current_position_pct decision)

  abbrev pub within : Option F → F → Bool
  within none limit = false
  within (some delta) limit = rt.le delta limit

  abbrev show_delta : Option F → String
  show_delta none = "None"
  show_delta (some delta) = rt.show delta

  unfoldable pub control_checks :
      List (PaperControlEvent F) → Option (StrategyDecision F) → List Check
  control_checks events none = check "operator_control" false "decision missing" none ∷ []
  control_checks events (some d) =
      let state = current_control_state events (some d.symbol) in
      let reason = paper_order_control_block_reason rt state d in
      check "operator_control" (is_none reason)
        (or_text (text_of reason) (concat ("control_status=" ∷ control_status state ∷ [])))
        state.latest_control_id
      ∷ []

  unfoldable pub order_checks :
      Option (PaperOrder F)
      → Option (StrategyDecision F)
      → List (PaperOrder F)
      → List (BrokerOrder F)
      → String
      → String
      → F
      → List Check
  unfolding order_delta
  order_checks none decision orders broker_orders broker broker_mode max_order_position_pct =
      check "paper_order_exists" false "paper order not found" none ∷ []
  order_checks (some order) decision orders broker_orders broker broker_mode
        max_order_position_pct =
      let delta = order_delta decision order in
      let duplicate_paper = find? (is_duplicate_paper order) orders in
      let duplicate_broker = find? (is_duplicate_broker order broker broker_mode) broker_orders in
      check "paper_order_exists" true (concat ("order_id=" ∷ order.order_id ∷ []))
        (some order.order_id)
      ∷ check "paper_order_open" (order.status == order_status_value PaperOrderStatus.created)
          (concat ("order_status=" ∷ order.status ∷ [])) (some order.order_id)
      ∷ check "max_order_size" (within delta max_order_position_pct)
          (concat (
            "order_delta_pct="
            ∷ show_delta delta
            ∷ "; max_order_position_pct="
            ∷ rt.show max_order_position_pct
            ∷ []))
          (some order.order_id)
      ∷ check "duplicate_active_paper_order" (is_none duplicate_paper)
          (concat ("duplicate_order_id=" ∷ show_text (paper_order_id_of duplicate_paper) ∷ []))
          (paper_order_id_of duplicate_paper)
      ∷ check "duplicate_active_broker_order" (is_none duplicate_broker)
          (concat
            ("duplicate_broker_order_id=" ∷ show_text (broker_order_id_of duplicate_broker) ∷ []))
          (broker_order_id_of duplicate_broker)
      ∷ []
