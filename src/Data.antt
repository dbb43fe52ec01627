-- ===== src/Data.antt =====
-- cpp_exec/exec_bridge.hpp, the types: the market data, signals, orders, positions and events.
use hl_cli.Prelude.{
  ℕ, Bool, false, not, ◌&&◌, Option, none, List, String, is_empty_text, ℤ, pos, negsuc, leb_ℤ,
}
use hl_cli.Double.{Double, nought}

-- include/backpack/backpack_client.hpp
pub data OrderSide : Type 0 where
  buy sell : OrderSide

pub data OrderType : Type 0 where
  market limit : OrderType

pub data TimeInForce : Type 0 where
  gtc ioc fok gtx post_only_tif : TimeInForce

pub record OrderRequest (D : Type 0) : Type 0 where
  pub symbol : String
  pub side : OrderSide
  pub type : OrderType
  pub quantity : D
  pub price : D
  pub time_in_force : TimeInForce

-- The statuses that the code names, and any other; the fields that it reads of `backpack::Order`.
pub data OrderStatus : Type 0 where
  new partially_filled filled canceled rejected unhandled : OrderStatus

pub record Order (D : Type 0) : Type 0 where
  pub id : String
  pub symbol : String
  pub status : OrderStatus
  pub client_order_id : String
  pub side : OrderSide
  pub type : OrderType
  pub quantity : D
  pub price : D
  pub executed_quantity : D
  pub timestamp : String

pub record BookTicker (D : Type 0) : Type 0 where
  pub symbol : String
  pub bid_price : D
  pub ask_price : D
  pub bid_qty : D
  pub ask_qty : D
  pub timestamp : ℕ
  pub update_id : ℕ

pub data SelfTradePrevention : Type 0 where
  no_prevention reject_taker reject_maker reject_both : SelfTradePrevention

pub record OrderFlags : Type 0 where
  pub post_only : Bool
  pub reduce_only : Bool
  pub auto_borrow : Bool
  pub self_trade_prevention : SelfTradePrevention

-- `OrderFlags()`
abbrev pub no_flags : OrderFlags
no_flags = record {
  post_only = false;
  reduce_only = false;
  auto_borrow = false;
  self_trade_prevention = no_prevention;
}

pub record MlSignalPayload (D : Type 0) : Type 0 where
  pub timestamp_ms : ℤ
  pub signal_action : ℤ
  pub model_id : String
  pub max_hold_bars_config : ℤ
  pub stop_loss_pct_config : D
  pub order_quantity_config : D

pub record ConditionalOrderParams (D : Type 0) : Type 0 where
  pub stop_loss_trigger_price : Option D
  pub stop_loss_limit_price : Option D
  pub take_profit_trigger_price : Option D
  pub take_profit_limit_price : Option D

abbrev pub no_conditions : {D : Type 0} → ConditionalOrderParams D
no_conditions = record {
  stop_loss_trigger_price = none;
  stop_loss_limit_price = none;
  take_profit_trigger_price = none;
  take_profit_limit_price = none;
}

pub data RestingOrderSide : Type 0 where
  bid ask : RestingOrderSide

-- `placed_at` is a time of the steady clock, in nanoseconds.
pub record RestingOrder (D : Type 0) : Type 0 where
  pub order_id : String
  pub symbol : String
  pub side : RestingOrderSide
  pub price : D
  pub qty : D
  pub placed_at : ℕ
  pub client_id : String

pub data TradeEventType : Type 0 where
  signal_received entry_order_sent order_new entry_order_filled : TradeEventType
  entry_order_partially_filled stop_order_sent : TradeEventType
  position_closed_stop_loss position_closed_take_profit : TradeEventType
  position_closed_max_hold position_closed_manual : TradeEventType
  order_cancelled order_rejected other : TradeEventType

unfoldable pub trade_event_type_to_string : TradeEventType → String
trade_event_type_to_string signal_received = "SIGNAL_RECEIVED"
trade_event_type_to_string entry_order_sent = "ENTRY_ORDER_SENT"
trade_event_type_to_string order_new = "ORDER_NEW"
trade_event_type_to_string entry_order_filled = "ENTRY_ORDER_FILLED"
trade_event_type_to_string entry_order_partially_filled = "ENTRY_ORDER_PARTIALLY_FILLED"
trade_event_type_to_string stop_order_sent = "STOP_ORDER_SENT"
trade_event_type_to_string position_closed_stop_loss = "POSITION_CLOSED_STOP_LOSS"
trade_event_type_to_string position_closed_take_profit = "POSITION_CLOSED_TAKE_PROFIT"
trade_event_type_to_string position_closed_max_hold = "POSITION_CLOSED_MAX_HOLD"
trade_event_type_to_string position_closed_manual = "POSITION_CLOSED_MANUAL"
trade_event_type_to_string order_cancelled = "ORDER_CANCELLED"
trade_event_type_to_string order_rejected = "ORDER_REJECTED"
trade_event_type_to_string other = "OTHER"

pub record TradeEventData (D J : Type 0) : Type 0 where
  pub trade_id : String
  pub event_id : String
  pub event_timestamp : ℕ
  pub event_type : TradeEventType
  pub model_id : String
  pub trading_symbol : String
  pub order_id : Option String
  pub client_order_id : Option String
  pub price : Option D
  pub quantity : Option D
  pub filled_quantity : Option D
  pub side : Option String
  pub market_bid_at_event : Option D
  pub market_ask_at_event : Option D
  pub reason : Option String
  pub pnl : Option D
  pub additional_data : J

-- `Position` of `DefaultExecutionClient`: `side` is +1 for long, -1 for short.
pub record Position (D : Type 0) : Type 0 where
  pub model_id : String
  pub entry_price : D
  pub stop_loss : D
  pub size : D
  pub max_hold_bars : ℤ
  pub bars_held : ℤ
  pub side : ℤ
  pub trade_id : String

pub record ActivePosition (D : Type 0) : Type 0 where
  pub model_id : String
  pub trading_symbol : String
  pub side : OrderSide
  pub entry_price : D
  pub stop_loss_price : Option D
  pub quantity : D
  pub quantity_filled_so_far : D
  pub entry_timestamp : ℕ
  pub order_ids : List String
  pub stop_order_ids : List String
  pub closing_order_id : Option String
  pub closure_type : TradeEventType
  pub pending_closure : Bool

-- `MlSignalPayload::isValid`
module _ {D : Type 0} ⦃d : Double D⦄ where
  unfoldable pub is_valid : MlSignalPayload D → Bool
  is_valid p =
      leb_ℤ (pos 1) p.timestamp_ms
      && (leb_ℤ (negsuc 0) p.signal_action && leb_ℤ p.signal_action (pos 1))
      && not (is_empty_text p.model_id)
      && leb_ℤ (pos 0) p.max_hold_bars_config
      && d.lt nought p.stop_loss_pct_config
      && d.lt nought p.order_quantity_config
