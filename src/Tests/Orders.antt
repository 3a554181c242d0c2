-- ===== src/Tests/Orders.antt =====
-- Paper orders from decisions.
use paper_forecast_loop.Prelude.{◌≡◌, refl, ◌⊎◌, false, none, some, [], ◌∷◌, arith}
use paper_forecast_loop.Prelude.Text.{strip}
use paper_forecast_loop.Runtime.Fixed.{Fixed, fixed_runtime}
use paper_forecast_loop.Models.Trading.{StrategyDecision}
use paper_forecast_loop.Storage.{ArtifactRepository, save_paper_order, save_control_event}
use paper_forecast_loop.Models.Trading.Ids.{build_paper_order_id, build_control_id}
use paper_forecast_loop.Control.{
  current_control_state, control_event, paper_order_control_block_reason,
}
use paper_forecast_loop.Control.Guards.{block_reason_exact}
use paper_forecast_loop.Orders.{
  health_blocks, select_decision, order_for_decision, create_paper_order_from_decision,
}
use paper_forecast_loop.Orders.Single.{IsSingle}
use paper_forecast_loop.Orders.Effect.{
  IsOrderable, create_paper_order-Effect, create_paper_order-keeps_IsSingle,
  created_not_stored_twice,
}
use paper_forecast_loop.Orders.Emergency.{stop_event, stop_request, emergency_stop_holds_orders}
use paper_forecast_loop.Tests.Fixtures.{decision, desk}

create_paper_order-Effect_example :
    let (result, after) =
      create_paper_order_from_decision fixed_runtime desk "latest" "BTC-USD" 110 none in
    ((result.status ≡ "skipped") × (result.order ≡ none) × (after ≡ desk))
    ⊎ ((d : StrategyDecision Fixed) × (select_decision desk.strategy_decisions "latest" "BTC-USD"
          ≡ some d)
        × (health_blocks none ≡ false)
        × IsOrderable fixed_runtime desk d
        × (result.status ≡ "created")
        × (result.order ≡ some (order_for_decision fixed_runtime 110 d))
        × (after ≡ save_paper_order (order_for_decision fixed_runtime 110 d) desk))
create_paper_order-Effect_example =
    create_paper_order-Effect fixed_runtime desk "latest" "BTC-USD" 110 none

create_paper_order-keeps_IsSingle_example :
    IsSingle
      (create_paper_order_from_decision fixed_runtime desk "latest" "BTC-USD" 110
        none).1.paper_orders
create_paper_order-keeps_IsSingle_example =
    create_paper_order-keeps_IsSingle fixed_runtime desk "latest" "BTC-USD" 110 none (ground arith)

-- the order of the decision, filled already
abbrev filled_desk : ArtifactRepository Fixed
filled_desk = record desk {
  paper_orders =
      record (order_for_decision fixed_runtime 105 (decision "decision:1" "BUY")) {
        status = "FILLED";
      }
      ∷ [];
}

filled_desk-IsOrderable : IsOrderable fixed_runtime filled_desk (decision "decision:1" "BUY")
unfolding current_control_state paper_order_control_block_reason order_for_decision
filled_desk-IsOrderable = record {
  directional = refl;
  tradeable = refl;
  permitted =
      (block_reason_exact fixed_runtime
          (current_control_state filled_desk.control_events (some "BTC-USD"))
          (decision "decision:1" "BUY")).0
        refl;
  no_active = refl;
}

created_not_stored_twice_example :
    let (result, after) =
      create_paper_order_from_decision fixed_runtime filled_desk "latest" "BTC-USD" 110 none in
    (result.status ≡ "created")
    × (result.order ≡ some (order_for_decision fixed_runtime 110 (decision "decision:1" "BUY")))
    × (after.paper_orders ≡ filled_desk.paper_orders)
unfolding select_decision order_for_decision build_paper_order_id
created_not_stored_twice_example =
    created_not_stored_twice fixed_runtime filled_desk "latest" "BTC-USD" 110 none
      (decision "decision:1" "BUY") refl refl filled_desk-IsOrderable refl

emergency_stop_holds_orders_example :
    let stopped = stop_request fixed_runtime desk 30 "halt" "operator" none in
    let (result, after) =
      create_paper_order_from_decision fixed_runtime stopped.1 "latest" "BTC-USD" 110 none in
    (stopped.1 ≡ save_control_event (stop_event fixed_runtime desk 30 "halt" "operator" none) desk)
    × (result.status ≡ "skipped")
    × (result.order ≡ none)
    × (after ≡ stopped.1)
unfolding strip control_event build_control_id
emergency_stop_holds_orders_example =
    emergency_stop_holds_orders fixed_runtime desk 30 "halt" "operator" none refl (omega arith) refl
      "latest" "BTC-USD" 110 none
