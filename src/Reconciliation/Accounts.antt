-- ===== src/Reconciliation/Accounts.antt =====
-- broker_reconciliation.py: the local portfolio against the account of an external snapshot.
use paper_forecast_loop.Prelude.{
  String, Bool, true, not, ◌&&◌, ◌||◌, Option, none, some, List, [], ◌∷◌, ◌++◌, ◌==◌, if◌then◌else◌,
  map, keep, last?, is_empty, is_some,
}
use paper_forecast_loop.Prelude.Text.{sorted_set, is_text}
use paper_forecast_loop.Runtime.{
  Runtime, Dict, zero_point, text, number, array, items_of, object_of,
}
use paper_forecast_loop.Models.Portfolio.{PaperPosition, PaperPortfolioSnapshot}
use paper_forecast_loop.Reconciliation.Matching.{ExternalOrder, given, finding_if, finding}

-- The keys of an external position, and of the snapshot, that the reconciliation reads.
pub record ExternalPosition (F : Type 0) : Type 0 where
  pub symbol : Option String
  pub quantity : Option F

pub record ExternalSnapshot (F : Type 0) : Type 0 where
  pub orders : List ExternalOrder
  pub positions : List (ExternalPosition F)
  pub cash : Option F
  pub equity : Option F

pub record Tolerances (F : Type 0) : Type 0 where
  pub cash_tolerance : F
  pub equity_tolerance : F
  pub position_tolerance : F

-- What `_reconcile_portfolio` returns.
pub record PortfolioResult (F : Type 0) : Type 0 where
  pub position_mismatches : List (Dict F)
  pub cash_mismatch : Option (Dict F)
  pub equity_mismatch : Option (Dict F)
  pub findings : List (Dict F)

module _ {F : Type 0} where
  -- the entry of a mismatch in its finding
  abbrev mismatch_entry : Option (Dict F) → Dict F
  mismatch_entry none = []
  mismatch_entry (some mismatch) = ("mismatch", object_of mismatch) ∷ []

  unfoldable pub portfolio_result :
      List (Dict F) → Option (Dict F) → Option (Dict F) → List (Dict F) → PortfolioResult F
  portfolio_result findings cash equity positions = record {
    position_mismatches = positions;
    cash_mismatch = cash;
    equity_mismatch = equity;
    findings =
        findings
        ++ (finding_if (is_some cash) (
              finding "cash_mismatch"
                "Local paper cash differs from external paper/sandbox account cash."
                (mismatch_entry cash))
            ++ (finding_if (is_some equity) (
                  finding "equity_mismatch"
                    "Local paper equity differs from external paper/sandbox account equity."
                    (mismatch_entry equity))
                ++ finding_if (not (is_empty positions)) (
                    finding "position_mismatch"
                      "Local paper positions differ from external paper/sandbox positions."
                      (("mismatches", array (items_of (map object_of positions))) ∷ []))));
  }

  abbrev pub has_account : ExternalSnapshot F → Bool
  has_account snapshot =
      not (is_empty snapshot.positions) || (is_some snapshot.cash || is_some snapshot.equity)

  unfoldable pub traded_symbols : List (PaperPosition F) → List (ExternalPosition F) → List String
  unfolding sorted_set
  traded_symbols positions external_positions =
      sorted_set (map (λ p. p.symbol) positions ++ given (map (λ p. p.symbol) external_positions))

module _ {F : Type 0} (rt : Runtime F) where
  abbrev pub is_close : F → Option F → F → Bool
  is_close local_value none tolerance = true
  is_close local_value (some external_value) tolerance =
      rt.le (rt.abs (rt.sub local_value external_value)) tolerance

  unfoldable pub numeric_mismatch : F → Option F → F → String → Option (Dict F)
  numeric_mismatch local_value none tolerance field = none
  numeric_mismatch local_value (some external_value) tolerance field =
      if rt.le (rt.abs (rt.sub local_value external_value)) tolerance
      then none
      else some (
          ("field", text field)
          ∷ ("local", number local_value)
          ∷ ("external", number external_value)
          ∷ ("tolerance", number tolerance)
          ∷ [])

  abbrev quantity_held : Option (PaperPosition F) → F
  quantity_held none = zero_point rt
  quantity_held (some position) = position.quantity

  -- `float(… or 0.0)`
  abbrev quantity_or_zero : Option F → F
  quantity_or_zero none = zero_point rt
  quantity_or_zero (some x) =
      if rt.le x (zero_point rt) && rt.le (zero_point rt) x then zero_point rt else x

  abbrev quantity_listed : Option (ExternalPosition F) → F
  quantity_listed none = zero_point rt
  quantity_listed (some position) = quantity_or_zero position.quantity

  unfoldable pub local_quantity : List (PaperPosition F) → String → F
  local_quantity positions symbol = quantity_held (last? (keep (λ p. p.symbol == symbol) positions))

  unfoldable pub external_quantity : List (ExternalPosition F) → String → F
  external_quantity positions symbol =
      quantity_listed (last? (keep (λ p. is_text p.symbol symbol && not (symbol == "")) positions))

  unfoldable pub deviates : List (PaperPosition F) → List (ExternalPosition F) → F → String → Bool
  unfolding local_quantity external_quantity
  deviates positions external_positions tolerance symbol = rt.lt tolerance (
      rt.abs
        (rt.sub (local_quantity positions symbol) (external_quantity external_positions symbol)))

  unfoldable pub position_mismatches :
      PaperPortfolioSnapshot F → List (ExternalPosition F) → F → List (Dict F)
  unfolding deviates traded_symbols local_quantity external_quantity
  position_mismatches portfolio external_positions tolerance =
      map
        (λ symbol.
          ("symbol", text symbol)
          ∷ ("local_quantity", number (local_quantity portfolio.positions symbol))
          ∷ ("external_quantity", number (external_quantity external_positions symbol))
          ∷ ("tolerance", number tolerance)
          ∷ [])
        (keep (deviates portfolio.positions external_positions tolerance)
          (traded_symbols portfolio.positions external_positions))

  unfoldable pub reconcile_portfolio :
      Option (PaperPortfolioSnapshot F) → ExternalSnapshot F → Tolerances F → PortfolioResult F
  unfolding portfolio_result numeric_mismatch position_mismatches
  reconcile_portfolio none snapshot tolerances =
      portfolio_result
        (finding_if (has_account snapshot) (
          finding "missing_local_portfolio_snapshot"
            "External paper/sandbox account snapshot exists but no local portfolio snapshot is available."
            []))
        none none []
  reconcile_portfolio (some portfolio) snapshot tolerances =
      portfolio_result []
        (numeric_mismatch portfolio.cash snapshot.cash tolerances.cash_tolerance "cash")
        (numeric_mismatch portfolio.equity snapshot.equity tolerances.equity_tolerance "equity")
        (position_mismatches portfolio snapshot.positions tolerances.position_tolerance)
