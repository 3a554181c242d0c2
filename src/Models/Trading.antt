-- ===== src/Models/Trading.antt =====
-- models.py: strategy decisions, operator controls, orders and health checks.
pub mod Ids
pub mod Enums
use paper_forecast_loop.Prelude.{ℕ, String, Bool, Option, List}
use paper_forecast_loop.Runtime.{Dict}

pub record StrategyDecision (F : Type 0) : Type 0 where
  pub decision_id : String
  pub created_at : ℕ
  pub symbol : String
  pub horizon_hours : ℕ
  pub action : String
  pub confidence : Option F
  pub evidence_grade : String
  pub risk_level : String
  pub tradeable : Bool
  pub blocked_reason : Option String
  pub recommended_position_pct : Option F
  pub current_position_pct : Option F
  pub max_position_pct : F
  pub invalidation_conditions : List String
  pub reason_summary : String
  pub forecast_ids : List String
  pub score_ids : List String
  pub review_ids : List String
  pub baseline_ids : List String
  pub decision_basis : String

pub record PaperControlEvent (F : Type 0) : Type 0 where
  pub control_id : String
  pub created_at : ℕ
  pub action : String
  pub actor : String
  pub reason : String
  pub status : String
  pub symbol : Option String
  pub requires_confirmation : Bool
  pub confirmed : Bool
  pub parameter_name : Option String
  pub parameter_value : Option F
  pub decision_basis : String

pub record PaperOrder (F : Type 0) : Type 0 where
  pub order_id : String
  pub created_at : ℕ
  pub decision_id : String
  pub symbol : String
  pub side : String
  pub order_type : String
  pub status : String
  pub target_position_pct : Option F
  pub current_position_pct : Option F
  pub max_position_pct : F
  pub rationale : String

pub record BrokerOrder (F : Type 0) : Type 0 where
  pub broker_order_id : String
  pub created_at : ℕ
  pub updated_at : ℕ
  pub local_order_id : String
  pub decision_id : String
  pub symbol : String
  pub side : String
  pub quantity : Option F
  pub target_position_pct : Option F
  pub broker : String
  pub broker_mode : String
  pub status : String
  pub broker_status : Option String
  pub broker_order_ref : Option String
  pub client_order_id : Option String
  pub error_message : Option String
  pub raw_response : Dict F
  pub decision_basis : String

pub record HealthFinding : Type 0 where
  pub code : String
  pub severity : String
  pub message : String
  pub artifact_path : Option String
  pub repair_required : Bool

pub record HealthCheckResult : Type 0 where
  pub check_id : String
  pub created_at : ℕ
  pub status : String
  pub severity : String
  pub repair_required : Bool
  pub repair_request_id : Option String
  pub findings : List HealthFinding

pub record BrokerReconciliation (F : Type 0) : Type 0 where
  pub reconciliation_id : String
  pub created_at : ℕ
  pub broker : String
  pub broker_mode : String
  pub status : String
  pub severity : String
  pub repair_required : Bool
  pub local_broker_order_ids : List String
  pub external_order_refs : List String
  pub matched_order_refs : List String
  pub missing_external_order_ids : List String
  pub unknown_external_order_refs : List String
  pub duplicate_broker_order_refs : List String
  pub status_mismatches : List (Dict F)
  pub position_mismatches : List (Dict F)
  pub cash_mismatch : Option (Dict F)
  pub equity_mismatch : Option (Dict F)
  pub findings : List (Dict F)
  pub decision_basis : String

pub record ExecutionSafetyGate (F : Type 0) : Type 0 where
  pub gate_id : String
  pub created_at : ℕ
  pub symbol : String
  pub decision_id : Option String
  pub order_id : Option String
  pub broker : String
  pub broker_mode : String
  pub status : String
  pub severity : String
  pub allowed : Bool
  pub checks : List (Dict F)
  pub health_check_id : Option String
  pub risk_id : Option String
  pub broker_reconciliation_id : Option String
  pub decision_basis : String
