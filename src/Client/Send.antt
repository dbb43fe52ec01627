-- ===== src/Client/Send.antt =====
-- cpp_exec/exec_bridge.cpp: `send_order`, `send_limit` and `send_market`, and the ML signals of
-- exec_bridge_helpers.cpp that they act on. `to_json` is `OrderRequest::to_json` of the SDK.
pub mod Breaker
use hl_cli.Prelude.{
  ◌+◌, Bool, not, ◌&&◌, ◌||◌, Option, none, some, String, is_empty_text, if◌then◌else◌, leb, pos,
  eq_ℤ,
}
use hl_cli.Double.{Double, nought}
use hl_cli.Json.{Json, value_string}
use hl_cli.Uuid.{generate_uuid_v4}
use hl_cli.Host.{Host}
use hl_cli.Machine.{M, ret, thrown, pure, gets, skip, ◌>>=◌, ◌>>◌}
use hl_cli.Rate.{RestClass}
use hl_cli.Data.{
  buy, sell, OrderType, TimeInForce, OrderRequest, OrderFlags, no_flags, ConditionalOrderParams,
  no_conditions, MlSignalPayload, is_valid, entry_order_sent,
}
use hl_cli.Client.{Client, within, ask_host, open_orders_lock, trade_state}
use hl_cli.Client.Events.{order_side_to_string, blank_event, log_trade_event, known_trade_id}
use hl_cli.Client.OpenOrders.{signed, max_open_orders, count_symbol, cancel_all_for_symbol}
use hl_cli.Client.Payload.{order_payload}

module _ {D J W : Type 0} ⦃d : Double D⦄ (j : Json D J) (h : Host W) where
  -- A value that `value` reads, or the exception that it throws.
  abbrev pub or_throw : Option String → M (Client D J W) String
  or_throw none c = thrown "type_error" c
  or_throw (some s) c = ret s c

  -- The order's identifier in the reply.
  unfoldable pub order_id_of : J → M (Client D J W) String
  order_id_of reply = do
    order_id ← or_throw (value_string j reply "orderId" "")
    (if is_empty_text order_id && j.contains reply "id"
        then or_throw (value_string j reply "id" "")
        else pure order_id)

  -- The event of an order that was accepted.
  unfoldable pub log_order_sent : OrderRequest D → String → String → M (Client D J W) (Unit {0})
  unfolding known_trade_id log_trade_event
  log_order_sent o model_id id = do
    trade_id ← within trade_state (known_trade_id h model_id)
    event_id ← ask_host (generate_uuid_v4 h)
    now ← ask_host h.system_ms
    c ← gets (λ c. c)
    log_trade_event (record (blank_event j) {
      trade_id = trade_id;
      event_id = event_id;
      event_timestamp = now;
      event_type = entry_order_sent;
      model_id = model_id;
      trading_symbol = o.symbol;
      order_id = some id;
      client_order_id = some model_id;
      price = some o.price;
      quantity = some o.quantity;
      side = some (order_side_to_string o.side);
      market_bid_at_event = some c.best_bid;
      market_ask_at_event = some c.best_ask;
    })

  -- The circuit breaker of `send_order`, which counts the new order too.
  unfoldable pub predicted_breaker : String → M (Client D J W) (Unit {0})
  predicted_breaker symbol = do
    count ← within open_orders_lock (gets (count_symbol symbol))
    (if leb max_open_orders (count + 1)
        then (do _ ← cancel_all_for_symbol j h symbol; skip)
        else skip)

  -- What follows an accepted order.
  unfoldable pub after_order : OrderRequest D → String → String → M (Client D J W) (Unit {0})
  after_order o model_id order_id c =
      if is_empty_text order_id
      then ret tt c
      else (do log_order_sent o model_id order_id; predicted_breaker o.symbol) c

  module _ (to_json : OrderRequest D → J) where
    unfoldable pub send_order :
        OrderRequest D → OrderFlags → ConditionalOrderParams D → String → M (Client D J W) String
    send_order o flags cond model_id c =
        if not c.has_client
        then ret "" c
        else (do
          reply ←
              signed j h RestClass.trade "POST" "/api/v1/order" "orderExecute"
                (order_payload j c o flags cond model_id (to_json o))
          order_id ← order_id_of reply
          after_order o model_id order_id
          pure order_id)
            c

    unfoldable pub send_limit :
        String
        → D
        → D
        → Bool
        → TimeInForce
        → OrderFlags
        → ConditionalOrderParams D
        → String
        → M (Client D J W) String
    send_limit symbol quantity price is_buy time_in_force flags cond model_id =
        send_order
          (record {
            symbol = symbol;
            side = if is_buy then buy else sell;
            type = OrderType.limit;
            quantity = quantity;
            price = price;
            time_in_force = time_in_force;
          })
          flags cond model_id

    unfoldable pub send_market :
        String → D → Bool → OrderFlags → ConditionalOrderParams D → String → M (Client D J W) String
    send_market symbol quantity is_buy flags cond model_id c =
        let price = if is_buy then c.best_ask else c.best_bid in
        send_limit symbol quantity price is_buy TimeInForce.gtc flags cond model_id c

    unfoldable pub process_new_ml_signal : MlSignalPayload D → M (Client D J W) (Unit {0})
    process_new_ml_signal p c =
        if eq_ℤ p.signal_action (pos 0) || d.le p.order_quantity_config nought
        then ret tt c
        else (do
          _ ←
              send_market c.trading_symbol p.order_quantity_config (eq_ℤ p.signal_action (pos 1))
                no_flags no_conditions p.model_id
          skip)
            c

    -- `check_for_new_signal`, with the payload that `read_signal_file` gives.
    unfoldable pub check_for_new_signal : MlSignalPayload D → M (Client D J W) (Unit {0})
    check_for_new_signal payload c =
        if is_valid payload then process_new_ml_signal payload c else ret tt c
