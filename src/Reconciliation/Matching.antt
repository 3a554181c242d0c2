-- ===== src/Reconciliation/Matching.antt =====
-- broker_reconciliation.py: the local broker orders against those of an external snapshot.
use paper_forecast_loop.Prelude.{
  ℕ, suc, String, Bool, true, false, not, ◌&&◌, Option, none, some, List, [], ◌∷◌, ◌++◌, ◌==◌,
  if◌then◌else◌, map, keep, last?, is_empty, ltb,
}
use paper_forecast_loop.Prelude.Text.{contains, upper, sorted_set, is_text}
use paper_forecast_loop.Runtime.{Dict, text, texts, array, items_of, object_of}
use paper_forecast_loop.Models.Trading.{BrokerOrder}
use paper_forecast_loop.Models.Trading.Enums.{
  broker_status_value, submitted, acknowledged, partially_filled,
}
use paper_forecast_loop.ExecutionSafety.Checks.{text_of}

-- The keys of an external order that the reconciliation reads: texts, if they are there.
pub record ExternalOrder : Type 0 where
  pub broker_order_ref : Option String
  pub order_id : Option String
  pub id : Option String
  pub client_order_id : Option String
  pub status : Option String

abbrev pub tracked_external_statuses : List String
tracked_external_statuses =
    broker_status_value submitted
    ∷ broker_status_value acknowledged
    ∷ broker_status_value partially_filled
    ∷ []

abbrev is_given_ref : Option String → Bool
is_given_ref none = false
is_given_ref (some s) = not (s == "")

abbrev first_given : List (Option String) → Option String
first_given [] = none
first_given (o ∷ os) = if is_given_ref o then o else first_given os

unfoldable pub external_order_ref : ExternalOrder → Option String
external_order_ref order =
    first_given (order.broker_order_ref ∷ order.order_id ∷ order.id ∷ order.client_order_id ∷ [])

-- `[s for s in … if s]`
abbrev pub given : List (Option String) → List String
given [] = []
given (none ∷ os) = given os
given (some s ∷ os) = let rest = given os in if s == "" then rest else s ∷ rest

abbrev pub occurrences : String → List String → ℕ
occurrences s [] = 0
occurrences s (x ∷ xs) = let rest = occurrences s xs in if s == x then suc rest else rest

abbrev pub is_ref_in : Option String → List String → Bool
is_ref_in none refs = false
is_ref_in (some ref) refs = contains refs ref

-- `external_by_ref.get(ref)`: of several orders with the reference, the last
unfoldable pub order_with_ref : String → List ExternalOrder → Option ExternalOrder
order_with_ref ref orders = last? (keep (λ o. is_text (external_order_ref o) ref) orders)

-- `if xs: findings.append(…)`
abbrev pub finding_if : {F : Type 0} → Bool → Dict F → List (Dict F)
finding_if true finding = finding ∷ []
finding_if false finding = []

abbrev pub finding : {F : Type 0} → String → String → Dict F → Dict F
finding code message details =
    ("code", text code) ∷ ("severity", text "blocking") ∷ ("message", text message) ∷ details

module _ {F : Type 0} where
  abbrev pub against : BrokerOrder F → String → Option ExternalOrder → List (Dict F)
  against local_order ref none = []
  against local_order ref (some order) =
      let external_status = upper (text_of order.status) in
      if not (external_status == "") && not (external_status == local_order.status)
      then (("broker_order_id", text local_order.broker_order_id)
          ∷ ("broker_order_ref", text ref)
          ∷ ("local_status", text local_order.status)
          ∷ ("external_status", text external_status)
          ∷ [])
        ∷ []
      else []

  abbrev pub mismatch_of : List ExternalOrder → BrokerOrder F → Option String → List (Dict F)
  mismatch_of external_orders local_order none = []
  mismatch_of external_orders local_order (some ref) =
      if ref == "" then [] else against local_order ref (order_with_ref ref external_orders)

  unfoldable pub status_mismatches : List (BrokerOrder F) → List ExternalOrder → List (Dict F)
  status_mismatches [] external_orders = []
  status_mismatches (o ∷ os) external_orders =
      mismatch_of external_orders o o.broker_order_ref ++ status_mismatches os external_orders

  -- a tracked local order that the external orders lack
  abbrev pub is_missing : List String → BrokerOrder F → Bool
  is_missing external_refs o =
      contains tracked_external_statuses o.status
      && not (is_ref_in o.broker_order_ref external_refs)

abbrev pub external_refs_of : List ExternalOrder → List String
external_refs_of external_orders = given (map external_order_ref external_orders)

-- What `_reconcile_orders` returns.
pub record OrderResult (F : Type 0) : Type 0 where
  pub external_order_refs : List String
  pub matched_order_refs : List String
  pub missing_external_order_ids : List String
  pub unknown_external_order_refs : List String
  pub duplicate_broker_order_refs : List String
  pub mismatches : List (Dict F)
  pub findings : List (Dict F)

module _ {F : Type 0} where
  unfoldable pub order_findings :
      List String → List String → List String → List (Dict F) → List (Dict F)
  order_findings missing unknown duplicates mismatches =
      finding_if (not (is_empty missing)) (
        finding "missing_external_order"
          "Local tracked broker order is missing from external paper/sandbox snapshot."
          (("broker_order_ids", texts missing) ∷ []))
      ++ (finding_if (not (is_empty unknown)) (
            finding "unknown_external_order"
              "External paper/sandbox snapshot contains orders unknown to the local ledger."
              (("broker_order_refs", texts unknown) ∷ []))
          ++ (finding_if (not (is_empty duplicates)) (
                finding "duplicate_external_broker_order_ref"
                  "External paper/sandbox snapshot contains duplicate broker order references."
                  (("broker_order_refs", texts duplicates) ∷ []))
              ++ finding_if (not (is_empty mismatches)) (
                  finding "broker_order_status_mismatch"
                    "Local broker order status differs from the external paper/sandbox snapshot."
                    (("mismatches", array (items_of (map object_of mismatches))) ∷ []))))

  abbrev pub local_refs_of : List (BrokerOrder F) → List String
  local_refs_of local_orders = given (map (λ o. o.broker_order_ref) local_orders)

  unfoldable pub reconcile_orders : List (BrokerOrder F) → List ExternalOrder → OrderResult F
  unfolding order_findings status_mismatches sorted_set
  reconcile_orders local_orders external_orders =
      let refs = external_refs_of external_orders in
      let local_refs = local_refs_of local_orders in
      let duplicates = sorted_set (keep (λ ref. ltb 1 (occurrences ref refs)) refs) in
      let missing = map (λ o. o.broker_order_id) (keep (is_missing refs) local_orders) in
      let unknown = sorted_set (keep (λ ref. not (contains local_refs ref)) refs) in
      let mismatches = status_mismatches local_orders external_orders in
      record {
        external_order_refs = refs;
        matched_order_refs = sorted_set (keep (contains local_refs) refs);
        missing_external_order_ids = missing;
        unknown_external_order_refs = unknown;
        duplicate_broker_order_refs = duplicates;
        mismatches = mismatches;
        findings = order_findings missing unknown duplicates mismatches;
      }
