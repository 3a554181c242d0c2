-- ===== src/Reconciliation/Matched.antt =====
-- The orders of a reconciliation without findings (broker_reconciliation.py).
use mathlib.Core.Bool.{false≢true}
use paper_forecast_loop.Prelude.{
  ◌≡◌, refl, sym, ◌∙◌, String, Bool, true, false, not, ◌||◌, Option, none, some, List, [], ◌∷◌,
  ◌==◌, keep, is_empty, keep-is_empty, map-is_empty, both_empty, All, ltb, Bool-cases, inl, inr,
}
use paper_forecast_loop.Prelude.Text.{contains, upper, sorted_set-is_empty}
use paper_forecast_loop.Runtime.{Dict}
use paper_forecast_loop.Models.Trading.{BrokerOrder}
use paper_forecast_loop.ExecutionSafety.Checks.{text_of}
use paper_forecast_loop.Reconciliation.Matching.{
  ExternalOrder, reconcile_orders, order_findings, finding_if, is_missing, external_refs_of,
  local_refs_of, occurrences, status_mismatches, mismatch_of, against, order_with_ref,
}

pub unfound : {F : Type 0} → (b : Bool) (d : Dict F) → is_empty (finding_if b d) ≡ true → b ≡ false
unfound true d h = absurd (false≢true h)
unfound false d h = refl

pub unfilled : (b : Bool) → not b ≡ false → b ≡ true
unfilled true h = refl
unfilled false h = absurd (false≢true (sym h))

All-unfilled :
    {A : Type 0}
    → (p : A → Bool) (xs : List A) → All (λ x. not (p x) ≡ false) xs
    → All (λ x. p x ≡ true) xs
All-unfilled p [] h = tt
All-unfilled p (x ∷ xs) h = (unfilled (p x) h.0, All-unfilled p xs h.1)

-- An external order, if there is one, has no status or the local one.
abbrev status_agrees : {F : Type 0} → BrokerOrder F → Option ExternalOrder → Bool
status_agrees o none = true
status_agrees o (some external) =
    upper (text_of external.status) == "" || upper (text_of external.status) == o.status

abbrev order_agrees : {F : Type 0} → List ExternalOrder → BrokerOrder F → Option String → Bool
order_agrees externals o none = true
order_agrees externals o (some ref) = ref == "" || status_agrees o (order_with_ref ref externals)

module _ {F : Type 0} where
  against_agrees :
      (o : BrokerOrder F) (ref : String) (external : Option ExternalOrder)
      → is_empty (against o ref external) ≡ true
      → status_agrees o external ≡ true
  against_agrees o ref none h = refl
  against_agrees o ref (some external) h =
      elim (Bool-cases (upper (text_of external.status) == "")) [
        | inl missing ↦ rw missing refl
        | inr given ↦ elim (Bool-cases (upper (text_of external.status) == o.status)) [
          | inl same ↦ rw (given, same) refl
          | inr other ↦ absurd (false≢true (rw (given, other) at h))
        ]
      ]

  mismatch_agrees :
      (externals : List ExternalOrder) (o : BrokerOrder F) (r : Option String)
      → is_empty (mismatch_of externals o r) ≡ true
      → order_agrees externals o r ≡ true
  mismatch_agrees externals o none h = refl
  mismatch_agrees externals o (some ref) h = elim (Bool-cases (ref == "")) [
    | inl missing ↦ rw missing refl
    | inr given ↦
        rw given
          (against_agrees o ref (order_with_ref ref externals) (rw (mismatch_of, given) at h))
  ]

  every_order_agrees :
      (os : List (BrokerOrder F)) (externals : List ExternalOrder)
      → is_empty (status_mismatches os externals) ≡ true
      → All (λ o. order_agrees externals o o.broker_order_ref ≡ true) os
  unfolding status_mismatches
  every_order_agrees [] externals h = tt
  every_order_agrees (o ∷ os) externals h =
      let (here, there) =
        both_empty (mismatch_of externals o o.broker_order_ref) (status_mismatches os externals)
          h in
      (mismatch_agrees externals o o.broker_order_ref here, every_order_agrees os externals there)

  -- The local orders and those of the snapshot agree.
  pub record IsMatched (locals : List (BrokerOrder F)) (externals : List ExternalOrder)
      : Type 0 where
    pub none_missing : All (λ o. is_missing (external_refs_of externals) o ≡ false) locals
    pub all_known :
        All (λ ref. contains (local_refs_of locals) ref ≡ true) (external_refs_of externals)
    pub all_single :
        All
          (λ ref. ltb 1 (occurrences ref (external_refs_of externals)) ≡ false)
          (external_refs_of externals)
    pub all_agreeing : All (λ o. order_agrees externals o o.broker_order_ref ≡ true) locals

  pub settled_orders-IsMatched :
      (locals : List (BrokerOrder F)) (externals : List ExternalOrder)
      → is_empty (reconcile_orders locals externals).findings ≡ true
      → IsMatched locals externals
  unfolding reconcile_orders order_findings
  settled_orders-IsMatched locals externals h =
      let refs = external_refs_of externals in
      let duplicated = λ (ref : String). ltb 1 (occurrences ref refs) in
      let unknown = λ (ref : String). not (contains (local_refs_of locals) ref) in
      let (missing, rest) = both_empty (finding_if _ _) _ h in
      let (strange, rest1) = both_empty (finding_if _ _) _ rest in
      let (doubled, agreeing) = both_empty (finding_if _ _) _ rest1 in
      record {
        none_missing = keep-is_empty (is_missing refs) locals (
            sym (map-is_empty (λ o. o.broker_order_id) (keep (is_missing refs) locals))
            ∙ unfilled _ (unfound _ _ missing));
        all_known = All-unfilled (contains (local_refs_of locals)) refs (
            keep-is_empty unknown refs
              (sym (sorted_set-is_empty (keep unknown refs)) ∙ unfilled _ (unfound _ _ strange)));
        all_single =
            keep-is_empty duplicated refs
              (sym (sorted_set-is_empty (keep duplicated refs)) ∙ unfilled _ (unfound _ _ doubled));
        all_agreeing = every_order_agrees locals externals (unfilled _ (unfound _ _ agreeing));
      }
