-- ===== src/Tests/Broker.antt =====
-- Broker orders from local orders.
use paper_forecast_loop.Prelude.{refl, none, some, [], ◌∷◌}
use paper_forecast_loop.Runtime.Fixed.{Fixed, fixed_runtime}
use paper_forecast_loop.Models.Trading.{BrokerOrder}
use paper_forecast_loop.Storage.{ArtifactRepository}
use paper_forecast_loop.BrokerLifecycle.{
  build_broker_order, mock_response, create_broker_order_lifecycle,
}
use paper_forecast_loop.BrokerLifecycle.Submission.{
  Effect, IsSound, create_broker_order_lifecycle-Effect, create_broker_order_lifecycle-IsSound,
}
use paper_forecast_loop.Tests.Fixtures.{order, desk}

abbrev submitted_order : BrokerOrder Fixed
submitted_order =
    build_broker_order fixed_runtime (order "paper-order:1" "CREATED") 95 "mock" "SANDBOX"
      "SUBMITTED" (mock_response "SUBMITTED" none) none

-- one order submitted, one open order that is not
abbrev broker_desk : ArtifactRepository Fixed
broker_desk = record desk {
  paper_orders = order "paper-order:1" "CREATED" ∷ order "paper-order:2" "CREATED" ∷ [];
  broker_orders = submitted_order ∷ [];
}

broker_desk-IsSound : IsSound broker_desk.broker_orders
unfolding build_broker_order
broker_desk-IsSound = ((refl, tt), (record { mode_allowed = refl; status_known = refl }, tt))

create_broker_order_lifecycle-Effect_example :
    Effect fixed_runtime broker_desk "latest" 120 "mock" "sandbox" (some "submitted") none (
      create_broker_order_lifecycle fixed_runtime broker_desk "latest" 120 "mock" "sandbox"
        (some "submitted")
        none)
create_broker_order_lifecycle-Effect_example =
    create_broker_order_lifecycle-Effect fixed_runtime broker_desk "latest" 120 "mock" "sandbox"
      (some "submitted") none

create_broker_order_lifecycle-IsSound_example :
    IsSound
      (create_broker_order_lifecycle fixed_runtime broker_desk "latest" 120 "mock" "sandbox"
        (some "submitted")
        none).1.broker_orders
create_broker_order_lifecycle-IsSound_example =
    create_broker_order_lifecycle-IsSound fixed_runtime broker_desk "latest" 120 "mock" "sandbox"
      (some "submitted") none broker_desk-IsSound
