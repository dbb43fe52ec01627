-- ===== src/Client/Events.antt =====
-- cpp_exec/exec_bridge.cpp: the structured trade events, `log_trade_event` and what its callers
-- share. What is written to tradelog.jsonl is the list `trade_event_log`.
use hl_cli.Prelude.{none, some, ◌∷◌, String, find, insert}
use hl_cli.Json.{Json}
use hl_cli.Uuid.{generate_uuid_v4}
use hl_cli.Host.{Host}
use hl_cli.Machine.{M, ret, pure, gets, modify, ◌>>=◌, ◌>>◌}
use hl_cli.Data.{
  OrderSide, buy, sell, OrderType, market, limit, SelfTradePrevention, no_prevention, reject_taker,
  reject_maker, reject_both, TradeEventData, other, stop_order_sent,
}
use hl_cli.Client.{Client, within, trade_state, ask_host}

unfoldable pub order_side_to_string : OrderSide → String
order_side_to_string buy = "buy"
order_side_to_string sell = "sell"

unfoldable pub order_type_to_string : OrderType → String
order_type_to_string market = "market"
order_type_to_string limit = "limit"

unfoldable pub self_trade_prevention_to_string : SelfTradePrevention → String
self_trade_prevention_to_string no_prevention = "NONE"
self_trade_prevention_to_string reject_taker = "REJECT_TAKER"
self_trade_prevention_to_string reject_maker = "REJECT_MAKER"
self_trade_prevention_to_string reject_both = "REJECT_BOTH"

-- The texts that the events carry for a side.
abbrev pub event_side : OrderSide → String
event_side buy = "BUY"
event_side sell = "SELL"

module _ {D J : Type 0} (j : Json D J) where
  -- `TradeEventData()`
  abbrev pub blank_event : TradeEventData D J
  blank_event = record {
    trade_id = "";
    event_id = "";
    event_timestamp = 0;
    event_type = other;
    model_id = "";
    trading_symbol = "";
    order_id = none;
    client_order_id = none;
    price = none;
    quantity = none;
    filled_quantity = none;
    side = none;
    market_bid_at_event = none;
    market_ask_at_event = none;
    reason = none;
    pnl = none;
    additional_data = j.null;
  }

module _ {D J W : Type 0} where
  -- A closed file takes nothing.
  unfoldable pub log_trade_event : TradeEventData D J → M (Client D J W) (Unit {0})
  log_trade_event event c = ret tt (record c {
    trade_event_log = elim c.trade_event_log [ none ↦ none | some events ↦ some (event ∷ events) ];
  })

module _ {D J W : Type 0} (h : Host W) where
  -- The trade that a model's events belong to: a new one, if it is not known.
  unfoldable pub known_trade_id : String → M (Client D J W) String
  known_trade_id model_id c = elim (find model_id c.trade_id_map) [
    | some trade_id ↦ ret trade_id c
    | none ↦ ask_host (generate_uuid_v4 h) c
  ]

  -- The same, and a new one is remembered.
  unfoldable pub registered_trade_id : String → M (Client D J W) String
  registered_trade_id model_id c = elim (find model_id c.trade_id_map) [
    | some trade_id ↦ ret trade_id c
    | none ↦
        (do
          trade_id ← ask_host (generate_uuid_v4 h)
          modify λ c. record c { trade_id_map = insert model_id trade_id c.trade_id_map }
          pure trade_id)
          c
  ]

module _ {D J W : Type 0} (j : Json D J) (h : Host W) where
  -- `log_stop_order_sent`
  unfoldable pub log_stop_order_sent :
      String → D → D → OrderSide → String → M (Client D J W) (Unit {0})
  unfolding log_trade_event known_trade_id
  log_stop_order_sent model_id price quantity side symbol = do
    trade_id ← within trade_state (known_trade_id h model_id)
    event_id ← ask_host (generate_uuid_v4 h)
    now ← ask_host h.system_ms
    c ← gets (λ c. c)
    log_trade_event (record (blank_event j) {
      trade_id = trade_id;
      event_id = event_id;
      event_timestamp = now;
      event_type = stop_order_sent;
      model_id = model_id;
      trading_symbol = symbol;
      price = some price;
      quantity = some quantity;
      side = some (event_side side);
      market_bid_at_event = some c.best_bid;
      market_ask_at_event = some c.best_ask;
    })
