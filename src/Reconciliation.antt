-- ===== src/Reconciliation.antt =====
-- broker_reconciliation.py: the local ledger of broker orders and the portfolio against a snapshot of
-- an external paper or sandbox account.
pub mod Matching
pub mod Accounts
pub mod Matched
pub mod Reconciled
use paper_forecast_loop.Prelude.{
  ℕ, String, Bool, not, ◌&&◌, List, [], ◌∷◌, ◌++◌, ◌==◌, if◌then◌else◌, map, keep, last?, is_empty,
  Result, ok, err,
}
use paper_forecast_loop.Prelude.Text.{contains, concat, upper, dashes_to_underscores}
use paper_forecast_loop.Runtime.{Runtime, Dict}
use paper_forecast_loop.Models.Trading.{BrokerOrder, BrokerReconciliation}
use paper_forecast_loop.Models.Trading.Ids.{build_reconciliation_id}
use paper_forecast_loop.Storage.{ArtifactRepository, save_broker_reconciliation}
use paper_forecast_loop.BrokerLifecycle.{allowed_modes}
use Matching.{OrderResult, reconcile_orders}
use Accounts.{ExternalSnapshot, Tolerances, PortfolioResult, reconcile_portfolio}

unfoldable pub normalize_reconciliation_mode : String → Result String
normalize_reconciliation_mode mode =
    let normalized = dashes_to_underscores (upper mode) in
    if not (contains allowed_modes normalized)
    then err (
        concat (
          "unsupported broker reconciliation mode: " ∷ mode
          ∷ "; allowed modes are EXTERNAL_PAPER and SANDBOX. Live trading is unavailable." ∷ []))
    else ok normalized

module _ {F : Type 0} where
  abbrev pub orders_at : ArtifactRepository F → String → String → List (BrokerOrder F)
  orders_at repository broker broker_mode =
      keep (λ o. o.broker == broker && o.broker_mode == broker_mode) repository.broker_orders

module _ {F : Type 0} (rt : Runtime F) where
  unfoldable pub reconciliation_for :
      ℕ
      → String
      → String
      → List (BrokerOrder F)
      → OrderResult F
      → PortfolioResult F
      → BrokerReconciliation F
  unfolding build_reconciliation_id
  reconciliation_for now broker broker_mode local_orders orders portfolio =
      let findings = orders.findings ++ portfolio.findings in
      let local_ids = map (λ o. o.broker_order_id) local_orders in
      record {
        reconciliation_id =
            build_reconciliation_id rt now broker broker_mode local_ids orders.external_order_refs
              findings;
        created_at = now;
        broker = broker;
        broker_mode = broker_mode;
        status = if not (is_empty findings) then "MISMATCH" else "MATCHED";
        severity = if not (is_empty findings) then "blocking" else "none";
        repair_required = not (is_empty findings);
        local_broker_order_ids = local_ids;
        external_order_refs = orders.external_order_refs;
        matched_order_refs = orders.matched_order_refs;
        missing_external_order_ids = orders.missing_external_order_ids;
        unknown_external_order_refs = orders.unknown_external_order_refs;
        duplicate_broker_order_refs = orders.duplicate_broker_order_refs;
        status_mismatches = orders.mismatches;
        position_mismatches = portfolio.position_mismatches;
        cash_mismatch = portfolio.cash_mismatch;
        equity_mismatch = portfolio.equity_mismatch;
        findings = findings;
        decision_basis = "paper-only broker reconciliation against external paper/sandbox snapshot";
      }

  unfoldable pub run_broker_reconciliation :
      ArtifactRepository F
      → ExternalSnapshot F
      → ℕ
      → String
      → String
      → Tolerances F
      → Result (BrokerReconciliation F) × ArtifactRepository F
  unfolding normalize_reconciliation_mode reconciliation_for reconcile_orders reconcile_portfolio
  run_broker_reconciliation repository snapshot now broker mode tolerances =
      elim (normalize_reconciliation_mode mode) [
        | err why ↦ (err why, repository)
        | ok broker_mode ↦
            let local_orders = orders_at repository broker broker_mode in
            let reconciliation =
              reconciliation_for now broker broker_mode local_orders
                (reconcile_orders local_orders snapshot.orders)
                (reconcile_portfolio rt (last? repository.portfolio_snapshots) snapshot
                  tolerances) in
            (ok reconciliation, save_broker_reconciliation reconciliation repository)
      ]
