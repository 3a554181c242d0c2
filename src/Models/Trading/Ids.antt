-- ===== src/Models/Trading/Ids.antt =====
-- models.py: the `build_id` of decisions, controls and orders.
use paper_forecast_loop.Prelude.{ℕ, String, Option, List, [], ◌∷◌, map}
use paper_forecast_loop.Prelude.Text.{sorted}
use paper_forecast_loop.Runtime.{
  Runtime, Dict, array, items_of, object_of, stable_artifact_id, text, integer, texts, text_or_null,
  number_or_null,
}

module _ {F : Type 0} (rt : Runtime F) where
  unfoldable pub build_decision_id :
      String → ℕ → String → List String → List String → List String → List String → String → String
  unfolding stable_artifact_id
  build_decision_id symbol horizon_hours action forecast_ids score_ids review_ids baseline_ids
        decision_basis =
      stable_artifact_id rt "decision" (
        ("symbol", text symbol)
        ∷ ("horizon_hours", integer horizon_hours)
        ∷ ("action", text action)
        ∷ ("forecast_ids", texts (sorted forecast_ids))
        ∷ ("score_ids", texts (sorted score_ids))
        ∷ ("review_ids", texts (sorted review_ids))
        ∷ ("baseline_ids", texts (sorted baseline_ids))
        ∷ ("decision_basis", text decision_basis)
        ∷ [])

  unfoldable pub build_control_id :
      ℕ → String → String → String → Option String → Option String → Option F → String
  unfolding stable_artifact_id
  build_control_id created_at action actor reason symbol parameter_name parameter_value =
      stable_artifact_id rt "control" (
        ("created_at", text (rt.isoformat created_at))
        ∷ ("action", text action)
        ∷ ("actor", text actor)
        ∷ ("reason", text reason)
        ∷ ("symbol", text_or_null symbol)
        ∷ ("parameter_name", text_or_null parameter_name)
        ∷ ("parameter_value", number_or_null parameter_value)
        ∷ [])

  unfoldable pub build_paper_order_id : String → String → String → Option F → String → String
  unfolding stable_artifact_id
  build_paper_order_id decision_id symbol side target_position_pct order_type =
      stable_artifact_id rt "paper-order" (
        ("decision_id", text decision_id)
        ∷ ("symbol", text symbol)
        ∷ ("side", text side)
        ∷ ("target_position_pct", number_or_null target_position_pct)
        ∷ ("order_type", text order_type)
        ∷ [])

  unfoldable pub build_broker_order_id : String → String → String → String
  unfolding stable_artifact_id
  build_broker_order_id local_order_id broker broker_mode = stable_artifact_id rt "broker-order" (
      ("local_order_id", text local_order_id)
      ∷ ("broker", text broker)
      ∷ ("broker_mode", text broker_mode)
      ∷ [])

  unfoldable pub build_gate_id :
      ℕ → String → Option String → Option String → String → String → List (Dict F) → String
  unfolding stable_artifact_id
  build_gate_id created_at symbol decision_id order_id broker broker_mode checks =
      stable_artifact_id rt "execution-gate" (
        ("created_at", text (rt.isoformat created_at))
        ∷ ("symbol", text symbol)
        ∷ ("decision_id", text_or_null decision_id)
        ∷ ("order_id", text_or_null order_id)
        ∷ ("broker", text broker)
        ∷ ("broker_mode", text broker_mode)
        ∷ ("checks", array (items_of (map object_of checks)))
        ∷ [])

  unfoldable pub build_reconciliation_id :
      ℕ → String → String → List String → List String → List (Dict F) → String
  unfolding stable_artifact_id
  build_reconciliation_id created_at broker broker_mode local_broker_order_ids external_order_refs
        findings =
      stable_artifact_id rt "broker-reconciliation" (
        ("created_at", text (rt.isoformat created_at))
        ∷ ("broker", text broker)
        ∷ ("broker_mode", text broker_mode)
        ∷ ("local_broker_order_ids", texts (sorted local_broker_order_ids))
        ∷ ("external_order_refs", texts (sorted external_order_refs))
        ∷ ("findings", array (items_of (map object_of findings)))
        ∷ [])
