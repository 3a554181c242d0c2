-- ===== src/Models/Trading/Enums.antt =====
-- models.py and broker.py: the string enumerations of orders, with their values.
use paper_forecast_loop.Prelude.{String, List, [], ◌∷◌}

pub data PaperOrderStatus : Type 0 where
  created filled cancelled rejected : PaperOrderStatus

abbrev pub order_status_value : PaperOrderStatus → String
order_status_value created = "CREATED"
order_status_value filled = "FILLED"
order_status_value cancelled = "CANCELLED"
order_status_value rejected = "REJECTED"

pub data PaperOrderSide : Type 0 where
  buy sell : PaperOrderSide

abbrev pub side_value : PaperOrderSide → String
side_value buy = "BUY"
side_value sell = "SELL"

pub data PaperOrderType : Type 0 where
  target_percent : PaperOrderType

abbrev pub order_type_value : PaperOrderType → String
order_type_value target_percent = "TARGET_PERCENT"

pub data BrokerOrderStatus : Type 0 where
  created submitted acknowledged partially_filled filled cancelled : BrokerOrderStatus
  rejected expired error : BrokerOrderStatus

abbrev pub broker_status_value : BrokerOrderStatus → String
broker_status_value BrokerOrderStatus.created = "CREATED"
broker_status_value submitted = "SUBMITTED"
broker_status_value acknowledged = "ACKNOWLEDGED"
broker_status_value partially_filled = "PARTIALLY_FILLED"
broker_status_value BrokerOrderStatus.filled = "FILLED"
broker_status_value BrokerOrderStatus.cancelled = "CANCELLED"
broker_status_value BrokerOrderStatus.rejected = "REJECTED"
broker_status_value expired = "EXPIRED"
broker_status_value error = "ERROR"

-- `{item.value for item in BrokerOrderStatus}`
abbrev pub broker_order_statuses : List String
broker_order_statuses =
    "CREATED" ∷ "SUBMITTED" ∷ "ACKNOWLEDGED" ∷ "PARTIALLY_FILLED" ∷ "FILLED" ∷ "CANCELLED"
    ∷ "REJECTED" ∷ "EXPIRED" ∷ "ERROR" ∷ []

pub data BrokerMode : Type 0 where
  internal_paper external_paper sandbox : BrokerMode

abbrev pub mode_value : BrokerMode → String
mode_value internal_paper = "INTERNAL_PAPER"
mode_value external_paper = "EXTERNAL_PAPER"
mode_value sandbox = "SANDBOX"
