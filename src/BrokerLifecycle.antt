-- ===== src/BrokerLifecycle.antt =====
-- broker_lifecycle.py: the mock life of a paper order at an external broker. A `ValueError` is the
-- error of the result; nothing has been written when it is raised.
pub mod Submission
use paper_forecast_loop.Prelude.{
  ℕ, String, Bool, true, false, not, ◌&&◌, Option, none, some, List, [], ◌∷◌, ◌==◌, if◌then◌else◌,
  last?, find?, Result, ok, err,
}
use paper_forecast_loop.Prelude.Text.{upper, dashes_to_underscores, contains, concat}
use paper_forecast_loop.Runtime.{Runtime, Dict, flag, text, text_or_null}
use paper_forecast_loop.Models.Trading.{PaperOrder, BrokerOrder}
use paper_forecast_loop.Models.Trading.Ids.{build_broker_order_id}
use paper_forecast_loop.Models.Trading.Enums.{
  PaperOrderStatus, order_status_value, BrokerOrderStatus, broker_status_value,
  broker_order_statuses, mode_value, external_paper, sandbox,
}
use paper_forecast_loop.Storage.{ArtifactRepository, save_broker_order}

pub record BrokerOrderResult (F : Type 0) : Type 0 where
  pub status : String
  pub reason : Option String
  pub broker_order : Option (BrokerOrder F)
  pub local_order_id : Option String

abbrev pub allowed_modes : List String
allowed_modes = mode_value external_paper ∷ mode_value sandbox ∷ []

unfoldable pub normalize_broker_mode : String → Result String
normalize_broker_mode mode =
    let normalized = dashes_to_underscores (upper mode) in
    if not (contains allowed_modes normalized)
    then err (
        concat (
          "unsupported broker order lifecycle mode: " ∷ mode
          ∷ "; allowed modes are EXTERNAL_PAPER and SANDBOX. Live trading is unavailable." ∷ []))
    else ok normalized

-- `x or y` over optional texts
abbrev pub or_option : Option String → Option String → Option String
or_option none y = y
or_option (some x) y = if x == "" then y else some x

abbrev pub or_default : Option String → String → String
or_default none y = y
or_default (some x) y = if x == "" then y else x

-- `f"{status}"` of an optional text
abbrev show_option : Option String → String
show_option none = "None"
show_option (some x) = x

unfoldable pub normalize_status : Option String → Result String
normalize_status status =
    let normalized = upper (or_default status (broker_status_value BrokerOrderStatus.created)) in
    if not (contains broker_order_statuses normalized)
    then err (concat ("unsupported broker order lifecycle status: " ∷ show_option status ∷ []))
    else ok normalized

module _ {F : Type 0} where
  unfoldable pub select_local_order : List (PaperOrder F) → String → Option (PaperOrder F)
  select_local_order orders order_id =
      if order_id == "latest" then last? orders else find? (λ o. o.order_id == order_id) orders

  -- the test of `_existing_broker_order`
  abbrev pub is_submission : String → String → String → BrokerOrder F → Bool
  is_submission local_order_id broker broker_mode order =
      order.local_order_id == local_order_id
      && order.broker == broker
      && order.broker_mode == broker_mode

  abbrev pub existing_broker_order :
      List (BrokerOrder F) → String → String → String → Option (BrokerOrder F)
  existing_broker_order orders local_order_id broker broker_mode =
      find? (is_submission local_order_id broker broker_mode) orders

  abbrev pub mock_response : String → Option String → Dict F
  mock_response status broker_order_ref =
      ("mock", flag true)
      ∷ ("status", text status)
      ∷ ("broker_order_ref", text_or_null broker_order_ref)
      ∷ ("live_trading", flag false)
      ∷ []

  abbrev pub skipped_broker_order :
      String → Option (BrokerOrder F) → Option String → BrokerOrderResult F
  skipped_broker_order reason existing local_order_id = record {
    status = "skipped";
    reason = some reason;
    broker_order = existing;
    local_order_id = local_order_id;
  }

module _ {F : Type 0} (rt : Runtime F) where
  unfoldable pub build_broker_order :
      PaperOrder F → ℕ → String → String → String → Dict F → Option String → BrokerOrder F
  build_broker_order local_order now broker broker_mode status raw_response broker_order_ref =
      record {
        broker_order_id = build_broker_order_id rt local_order.order_id broker broker_mode;
        created_at = now;
        updated_at = now;
        local_order_id = local_order.order_id;
        decision_id = local_order.decision_id;
        symbol = local_order.symbol;
        side = local_order.side;
        quantity = none;
        target_position_pct = local_order.target_position_pct;
        broker = broker;
        broker_mode = broker_mode;
        status = status;
        broker_status = some status;
        broker_order_ref = broker_order_ref;
        client_order_id = some local_order.order_id;
        error_message =
            if status == broker_status_value BrokerOrderStatus.error
            then some "mock error"
            else none;
        raw_response = raw_response;
        decision_basis = "paper-only broker order lifecycle mock";
      }

  -- the end of a call, with the checked status: the broker order is built and stored. The mock
  -- response holds the reference that was given.
  abbrev pub submission :
      ArtifactRepository F
      → PaperOrder F
      → ℕ
      → String
      → String
      → Option String
      → Result String
      → Result (BrokerOrderResult F) × ArtifactRepository F
  submission repository local_order now broker mode broker_order_ref (err why) =
      (err why, repository)
  submission repository local_order now broker mode broker_order_ref (ok status) =
      let broker_order =
        build_broker_order local_order now broker mode status
          (mock_response status broker_order_ref) (or_option broker_order_ref broker_order_ref) in
      (
        ok (record {
          status = "created";
          reason = none;
          broker_order = some broker_order;
          local_order_id = some local_order.order_id;
        }),
        save_broker_order broker_order repository,
      )

  unfoldable pub submit_broker_order :
      ArtifactRepository F
      → PaperOrder F
      → ℕ
      → String
      → String
      → Option String
      → Option String
      → Result (BrokerOrderResult F) × ArtifactRepository F
  submit_broker_order repository local_order now broker mode mock_submit_status broker_order_ref =
      submission repository local_order now broker mode broker_order_ref
        (normalize_status mock_submit_status)

  -- the checks on the selected local order
  unfoldable pub lifecycle_of_local :
      ArtifactRepository F
      → PaperOrder F
      → ℕ
      → String
      → String
      → Option String
      → Option String
      → Result (BrokerOrderResult F) × ArtifactRepository F
  lifecycle_of_local repository local_order now broker mode mock_submit_status broker_order_ref =
      if not (local_order.status == order_status_value PaperOrderStatus.created)
      then (
        ok (skipped_broker_order "local_order_not_created" none (some local_order.order_id)),
        repository,
      )
      else elim (existing_broker_order repository.broker_orders local_order.order_id broker mode) [
        | some existing ↦ (
          ok (
              skipped_broker_order "duplicate_broker_order" (some existing)
                (some local_order.order_id)),
          repository,
        )
        | none ↦
            submit_broker_order repository local_order now broker mode mock_submit_status
              broker_order_ref
      ]

  unfoldable pub create_broker_order_lifecycle :
      ArtifactRepository F
      → String
      → ℕ
      → String
      → String
      → Option String
      → Option String
      → Result (BrokerOrderResult F) × ArtifactRepository F
  create_broker_order_lifecycle repository order_id now broker broker_mode mock_submit_status
        broker_order_ref =
      elim (normalize_broker_mode broker_mode) [
        | err why ↦ (err why, repository)
        | ok mode ↦ elim (select_local_order repository.paper_orders order_id) [
          | none ↦ (
            ok (
                skipped_broker_order "local_order_not_found" none
                  (if order_id == "latest" then none else some order_id)),
            repository,
          )
          | some local_order ↦
              lifecycle_of_local repository local_order now broker mode mock_submit_status
                broker_order_ref
        ]
      ]
