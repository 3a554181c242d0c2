-- ===== src/Orders/Effect.antt =====
-- What `create_paper_order_from_decision` does, on every path (orders.py).
use paper_forecast_loop.Prelude.{
  ℕ, String, ◌≡◌, ◌≢◌, refl, ◌⊎◌, inl, inr, Bool, true, false, ◌||◌, Option, none, some, [], ◌∷◌,
  ◌==◌, eq_iff, arith, any, find?-none, any-none, ap, if◌then◌else◌,
}
use paper_forecast_loop.Prelude.Text.{contains}
use paper_forecast_loop.Runtime.{Runtime}
use paper_forecast_loop.Models.Trading.{StrategyDecision, PaperOrder, HealthCheckResult}
use paper_forecast_loop.Storage.{ArtifactRepository, save_paper_order}
use paper_forecast_loop.Storage.Unique.{has_id, append_unique_old}
use paper_forecast_loop.Control.{current_control_state, paper_order_control_block_reason}
use paper_forecast_loop.Control.Guards.{IsPermitted, block_reason_exact}
use paper_forecast_loop.Orders.{
  PaperOrderResult, OrderCheck, skipped, skip, place, orderable_actions, health_blocks,
  select_decision, is_active, active_order_for_symbol, order_for_decision, check_decision, conclude,
  for_selected, create_paper_order_from_decision,
}
use paper_forecast_loop.Orders.Single.{IsSingle, append_unique-IsSingle}

module _ {F : Type 0} (rt : Runtime F) where
  -- A decision from which an order may be placed.
  pub record IsOrderable (repository : ArtifactRepository F) (d : StrategyDecision F) : Type 0 where
    pub directional : contains orderable_actions d.action ≡ true
    pub tradeable : d.tradeable ≡ true
    pub permitted :
        IsPermitted rt (current_control_state repository.control_events (some d.symbol)) d
    pub no_active : any (is_active d.symbol) repository.paper_orders ≡ false

  check_decision-place :
      (repository : ArtifactRepository F) (now : ℕ) (d : StrategyDecision F) (o : PaperOrder F)
      → check_decision rt repository now d ≡ place o
      → IsOrderable repository d × (o ≡ order_for_decision rt now d)
  unfolding check_decision
  check_decision-place repository now d o h =
      let free : paper_order_control_block_reason rt
            (current_control_state repository.control_events (some d.symbol)) d
          ≡ none =
        ground arith in
      let lone : active_order_for_symbol repository.paper_orders d.symbol ≡ none = ground arith in
      (
        record {
          directional = ground arith;
          tradeable = ground arith;
          permitted =
              (block_reason_exact rt
                  (current_control_state repository.control_events (some d.symbol)) d).0
                free;
          no_active = find?-none (is_active d.symbol) repository.paper_orders lone;
        },
        ground arith,
      )

  -- No action that creates no order is orderable.
  orderable_not_idle :
      (action : String)
      → contains orderable_actions action ≡ true
      → contains ("HOLD" ∷ "STOP_NEW_ENTRIES" ∷ []) action ≡ false
  orderable_not_idle action h = by_tests (action == "HOLD") (action == "STOP_NEW_ENTRIES") refl refl
    where
      not_among :
          (idle : String) → contains orderable_actions idle ≡ false → (action == idle) ≢ true
      not_among idle out same =
          cc (h, out, ap (contains orderable_actions) ((eq_iff action idle).0 same))

      by_tests :
          (b c : Bool)
          → (action == "HOLD") ≡ b
          → (action == "STOP_NEW_ENTRIES") ≡ c
          → (b || (c || false)) ≡ false
      by_tests true c hold stop = absurd (not_among "HOLD" refl hold)
      by_tests false true hold stop = absurd (not_among "STOP_NEW_ENTRIES" refl stop)
      by_tests false false hold stop = refl

  check_decision-IsOrderable :
      (repository : ArtifactRepository F) (now : ℕ) (d : StrategyDecision F)
      → IsOrderable repository d
      → check_decision rt repository now d ≡ place (order_for_decision rt now d)
  unfolding check_decision
  check_decision-IsOrderable repository now d ready =
      let free =
        (block_reason_exact rt (current_control_state repository.control_events (some d.symbol))
            d).1
          ready.permitted in
      let lone : active_order_for_symbol repository.paper_orders d.symbol ≡ none =
        any-none (is_active d.symbol) repository.paper_orders ready.no_active in
      ground (arith, orderable_not_idle d.action ready.directional)

  module _ (repository : ArtifactRepository F) (decision_id symbol : String) (now : ℕ)
      (health : Option HealthCheckResult) where
    -- A call skips and changes nothing; or it reports a created order, the decision selected by the
    -- arguments was orderable, no health check stood against it, and that order goes to the store.
    pub create_paper_order-Effect :
        let (result, after) =
          create_paper_order_from_decision rt repository decision_id symbol now health in
        ((result.status ≡ "skipped") × (result.order ≡ none) × (after ≡ repository))
        ⊎ ((d : StrategyDecision F) × (select_decision repository.strategy_decisions decision_id
                symbol
              ≡ some d)
            × (health_blocks health ≡ false)
            × IsOrderable repository d
            × (result.status ≡ "created")
            × (result.order ≡ some (order_for_decision rt now d))
            × (after ≡ save_paper_order (order_for_decision rt now d) repository))
    unfolding create_paper_order_from_decision
    create_paper_order-Effect =
        by_path (health_blocks health)
          (select_decision repository.strategy_decisions decision_id symbol) refl refl
      where
        outcome : Bool → Option (StrategyDecision F) → PaperOrderResult F × ArtifactRepository F
        outcome b o =
            if b
            then (skipped "health_blocking" none none, repository)
            else for_selected rt repository decision_id now o

        Described : PaperOrderResult F × ArtifactRepository F → Type 0
        Described (result, after) =
            ((result.status ≡ "skipped") × (result.order ≡ none) × (after ≡ repository))
            ⊎ ((d : StrategyDecision F) × (select_decision repository.strategy_decisions decision_id
                    symbol
                  ≡ some d)
                × (health_blocks health ≡ false)
                × IsOrderable repository d
                × (result.status ≡ "created")
                × (result.order ≡ some (order_for_decision rt now d))
                × (after ≡ save_paper_order (order_for_decision rt now d) repository))

        by_check :
            (d : StrategyDecision F) (c : OrderCheck F)
            → select_decision repository.strategy_decisions decision_id symbol ≡ some d
            → health_blocks health ≡ false
            → check_decision rt repository now d ≡ c
            → Described (conclude rt repository d c)
        by_check d (skip why active) _ _ _ = inl (refl, refl, refl)
        by_check d (place o) found healthy placed =
            let (ready, made) = check_decision-place repository now d o placed in
            inr (
              d,
              found,
              healthy,
              ready,
              refl,
              ap some made,
              ap (λ x. save_paper_order x repository) made,
            )

        by_path :
            (b : Bool) (o : Option (StrategyDecision F))
            → health_blocks health ≡ b
            → select_decision repository.strategy_decisions decision_id symbol ≡ o
            → Described (outcome b o)
        by_path true o _ _ = inl (refl, refl, refl)
        by_path false none _ _ = inl (refl, refl, refl)
        by_path false (some d) healthy found =
            by_check d (check_decision rt repository now d) found healthy refl

    -- If of the orders for each symbol at most one is active, that still holds after any call.
    pub create_paper_order-keeps_IsSingle :
        IsSingle repository.paper_orders
        → IsSingle
            (create_paper_order_from_decision rt repository decision_id symbol now
              health).1.paper_orders
    unfolding order_for_decision
    create_paper_order-keeps_IsSingle single = elim create_paper_order-Effect [
      | inl (_, _, same) ↦ rw same single
      | inr (d, _, _, ready, _, _, saved) ↦ rw saved (
          append_unique-IsSingle repository.paper_orders (order_for_decision rt now d) single
            ready.no_active)
    ]

    -- An orderable decision that the arguments select, with no health check against it, is always
    -- answered by a created order; if an order of that id is stored already (as after its fill),
    -- nothing is stored all the same.
    pub created_not_stored_twice :
        (d : StrategyDecision F)
        → select_decision repository.strategy_decisions decision_id symbol ≡ some d
        → health_blocks health ≡ false
        → IsOrderable repository d
        → has_id (λ o. o.order_id) (order_for_decision rt now d).order_id repository.paper_orders
          ≡ true
        → let (result, after) =
            create_paper_order_from_decision rt repository decision_id symbol now health in
          (result.status ≡ "created")
          × (result.order ≡ some (order_for_decision rt now d))
          × (after.paper_orders ≡ repository.paper_orders)
    unfolding create_paper_order_from_decision
    created_not_stored_twice d found healthy ready old =
        rw (healthy, found, check_decision-IsOrderable repository now d ready)
          (
            refl,
            refl,
            append_unique_old (λ o. o.order_id) repository.paper_orders
                (order_for_decision rt now d) old,
          )
