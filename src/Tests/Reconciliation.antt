-- ===== src/Tests/Reconciliation.antt =====
-- The reconciliation with the account of a broker.
use paper_forecast_loop.Prelude.{◌≡◌, refl, true, none, some, [], ◌∷◌, last?}
use paper_forecast_loop.Prelude.Text.{contains, upper, dashes_to_underscores}
use paper_forecast_loop.Runtime.Fixed.{Fixed, fixed_runtime}
use paper_forecast_loop.Models.Trading.{BrokerOrder}
use paper_forecast_loop.Models.Portfolio.Snapshots.{empty_portfolio}
use paper_forecast_loop.BrokerLifecycle.{build_broker_order, mock_response}
use paper_forecast_loop.Storage.{ArtifactRepository}
use paper_forecast_loop.Reconciliation.{run_broker_reconciliation, reconciliation_for, orders_at}
use paper_forecast_loop.Reconciliation.Matching.{
  external_order_ref, order_with_ref, reconcile_orders,
}
use paper_forecast_loop.Reconciliation.Accounts.{ExternalSnapshot, Tolerances, reconcile_portfolio}
use paper_forecast_loop.Reconciliation.Matched.{IsMatched}
use paper_forecast_loop.Reconciliation.Reconciled.{IsAccounted, repair_free-IsReconciled}
use paper_forecast_loop.Tests.Fixtures.{amount, order, desk}
use paper_forecast_loop.Tests.Portfolio.{holder}

abbrev known_order : BrokerOrder Fixed
known_order =
    record (build_broker_order fixed_runtime (order "paper-order:1" "CREATED") 95 "mock" "SANDBOX"
      "SUBMITTED" (mock_response "SUBMITTED" none) none) { broker_order_ref = some "ref:1" }

abbrev broker_desk : ArtifactRepository Fixed
broker_desk = record desk { broker_orders = known_order ∷ []; portfolio_snapshots = holder ∷ [] }

-- the account as the desk knows it
abbrev account : ExternalSnapshot Fixed
account = record {
  orders =
      record {
        broker_order_ref = none;
        order_id = some "ref:1";
        id = none;
        client_order_id = some "client:1";
        status = some "submitted";
      }
      ∷ [];
  positions = record { symbol = some "BTC-USD"; quantity = some (amount 2 0) } ∷ [];
  cash = some (amount 10000 0);
  equity = none;
}

abbrev tolerances : Tolerances Fixed
tolerances = record {
  cash_tolerance = amount 1 2;
  equity_tolerance = amount 1 2;
  position_tolerance = amount 1 9;
}

repair_free-IsReconciled_example :
    (contains ("EXTERNAL_PAPER" ∷ "SANDBOX" ∷ []) "SANDBOX" ≡ true)
    × (IsMatched (orders_at broker_desk "mock" "SANDBOX") account.orders
        × IsAccounted fixed_runtime (last? broker_desk.portfolio_snapshots) account tolerances)
unfolding run_broker_reconciliation dashes_to_underscores upper build_broker_order
    external_order_ref order_with_ref empty_portfolio
repair_free-IsReconciled_example =
    repair_free-IsReconciled fixed_runtime broker_desk account 2000 "mock" "sandbox" tolerances
      (reconciliation_for fixed_runtime 2000 "mock" "SANDBOX"
        (orders_at broker_desk "mock" "SANDBOX")
        (reconcile_orders (orders_at broker_desk "mock" "SANDBOX") account.orders)
        (reconcile_portfolio fixed_runtime (last? broker_desk.portfolio_snapshots) account
          tolerances))
      refl refl
