-- ===== src/Client/Updates.antt =====
-- cpp_exec/exec_bridge.cpp: `processSdkOrderUpdate`, the handler of the order updates that the
-- exchange sends over the WebSocket.
pub mod Locking
pub mod Fills
use hl_cli.Prelude.{
  Bool, true, false, not, ◌&&◌, Option, none, some, if◌then◌else◌, String, str_eq, is_empty_text,
  find, insert, erase,
}
use hl_cli.Double.{Double, nought}
use hl_cli.Json.{Json}
use hl_cli.Uuid.{generate_uuid_v4}
use hl_cli.Host.{Host}
use hl_cli.Machine.{M, ret, pure, gets, modify, skip, ◌>>=◌, ◌>>◌}
use hl_cli.Data.{
  OrderSide, buy, sell, OrderStatus, new, partially_filled, filled, canceled, rejected, unhandled,
  Order, RestingOrderSide, ActivePosition, order_new, entry_order_filled,
  entry_order_partially_filled, order_cancelled, order_rejected,
}
use hl_cli.Client.{Client, within, ask_host, open_orders_lock, trade_state}
use hl_cli.Client.Events.{
  event_side, blank_event, log_trade_event, known_trade_id, registered_trade_id,
}
use hl_cli.Client.OpenOrders.{enforce_open_order_limit}

abbrev pub resting_side : OrderSide → RestingOrderSide
resting_side buy = RestingOrderSide.bid
resting_side sell = RestingOrderSide.ask

abbrev pub is_filled : OrderStatus → Bool
is_filled filled = true
is_filled _ = false

abbrev pub same_text : Option String → String → Bool
same_text none s = false
same_text (some t) s = str_eq t s

module _ {D J W : Type 0} ⦃d : Double D⦄ (j : Json D J) (h : Host W) where
  -- case NEW
  unfoldable pub update_new : Order D → M (Client D J W) (Unit {0})
  unfolding registered_trade_id log_trade_event
  update_new o = do
    enforce_open_order_limit j h o.symbol
    (if is_empty_text o.client_order_id then skip else (do
      trade_id ← within trade_state (registered_trade_id h o.client_order_id)
      event_id ← ask_host (generate_uuid_v4 h)
      now ← ask_host h.system_ms
      c ← gets (λ c. c)
      log_trade_event (record (blank_event j) {
        trade_id = trade_id;
        event_id = event_id;
        event_timestamp = now;
        event_type = order_new;
        model_id = o.client_order_id;
        trading_symbol = o.symbol;
        order_id = some o.id;
        client_order_id = some o.client_order_id;
        price = some o.price;
        quantity = some o.quantity;
        side = some (event_side o.side);
        market_bid_at_event = some c.best_bid;
        market_ask_at_event = some c.best_ask;
      })))

  -- What was filled before this update, and the order's original quantity.
  abbrev filled_before : Order D → Option (ActivePosition D) → D × D
  filled_before o none = (nought, o.quantity)
  filled_before o (some ap) = (ap.quantity_filled_so_far, ap.quantity)

  abbrev epsilon : D
  epsilon = d.lit 1 9

  -- The event of a fill, logged if something was filled.
  unfoldable pub log_fill : Order D → M (Client D J W) (Unit {0})
  unfolding known_trade_id log_trade_event
  log_fill o = do
    (trade_id, (before, original)) ← within trade_state (do
      trade_id ← known_trade_id h o.client_order_id
      gets λ c. (trade_id, filled_before o (find o.client_order_id c.active_positions)))
    (if d.lt epsilon (d.sub o.executed_quantity before)
        then (do
          event_id ← ask_host (generate_uuid_v4 h)
          now ← (elim (h.stoull o.timestamp) [ some t ↦ pure t | none ↦ ask_host h.system_ms ])
          c ← gets (λ c. c)
          log_trade_event (record (blank_event j) {
            trade_id = trade_id;
            event_id = event_id;
            event_timestamp = now;
            event_type =
                if is_filled o.status then entry_order_filled else entry_order_partially_filled;
            model_id = o.client_order_id;
            trading_symbol = o.symbol;
            order_id = some o.id;
            client_order_id = some o.client_order_id;
            price = some o.price;
            filled_quantity = some (d.sub o.executed_quantity before);
            quantity = some original;
            side = some (event_side o.side);
            market_bid_at_event = some c.best_bid;
            market_ask_at_event = some c.best_ask;
            additional_data =
                j.put "sdk_order_status" (j.of_string (h.order_status_text o.status))
                  (j.put "sdk_executed_quantity_total" (j.of_double o.executed_quantity) j.null);
          }))
        else skip)

  -- The position after a fill, before its closure is looked at.
  unfoldable pub filled_position : Order D → ActivePosition D → ActivePosition D
  filled_position o ap = record ap {
    entry_price =
        if d.lt epsilon o.executed_quantity && d.lt nought o.price then o.price else ap.entry_price;
    quantity_filled_so_far = o.executed_quantity;
    quantity = if is_filled o.status then o.executed_quantity else ap.quantity;
  }

  -- The profit that the event of a closure states.
  unfoldable pub closure_pnl : Order D → ActivePosition D → D
  closure_pnl o ap = elim ap.side [
    | buy ↦ d.mul (d.sub o.price ap.entry_price) ap.quantity_filled_so_far
    | sell ↦ d.mul (d.sub ap.entry_price o.price) ap.quantity_filled_so_far
  ]

  abbrev pub completes_closure : Order D → ActivePosition D → Bool
  completes_closure o ap =
      ap.pending_closure && same_text ap.closing_order_id o.id && is_filled o.status

  -- The event of a closure.
  log_closure : Order D → ActivePosition D → M (Client D J W) (Unit {0})
  log_closure o ap = do
    trade_id ← known_trade_id h o.client_order_id
    event_id ← ask_host (generate_uuid_v4 h)
    now ← ask_host h.system_ms
    c ← gets (λ c. c)
    log_trade_event (record (blank_event j) {
      trade_id = trade_id;
      event_id = event_id;
      event_timestamp = now;
      event_type = ap.closure_type;
      model_id = o.client_order_id;
      trading_symbol = o.symbol;
      price = some o.price;
      quantity = some ap.quantity_filled_so_far;
      side = some (event_side ap.side);
      pnl = some (closure_pnl o ap);
      market_bid_at_event = some c.best_bid;
      market_ask_at_event = some c.best_ask;
    })

  abbrev store_position : String → ActivePosition D → Client D J W → Client D J W
  store_position model_id ap c = record c {
    active_positions = insert model_id ap c.active_positions;
  }

  -- The update of the position that a fill belongs to.
  unfoldable pub fill_position : Order D → M (Client D J W) (Unit {0})
  unfolding filled_position closure_pnl log_closure known_trade_id log_trade_event
  fill_position o c = elim (find o.client_order_id c.active_positions) [
    | none ↦ ret tt c
    | some ap ↦
        (let ap' = filled_position o ap in
            if completes_closure o ap'
            then (do
              log_closure o ap'
              modify (store_position o.client_order_id (record ap' { pending_closure = false })))
            else modify (store_position o.client_order_id ap'))
          c
  ]

  -- The order in `openOrders_`, with what is left of it.
  unfoldable pub track_order : Order D → M (Client D J W) (Unit {0})
  track_order o c = elim (find o.id c.open_orders) [
    | none ↦
        (do
          now ← ask_host h.steady_ns
          modify λ c. record c {
            open_orders =
                insert o.id
                  (record {
                    order_id = o.id;
                    symbol = o.symbol;
                    side = resting_side o.side;
                    price = o.price;
                    qty = d.sub o.quantity o.executed_quantity;
                    placed_at = now;
                    client_id = o.client_order_id;
                  })
                  c.open_orders;
          })
          c
    | some r ↦ ret tt (record c {
      open_orders =
          insert o.id
            (record r {
              qty = d.sub o.quantity o.executed_quantity;
              price = o.price;
              side = resting_side o.side;
              client_id = o.client_order_id;
            })
            c.open_orders;
    })
  ]

  -- The part of the fill that needs a model: the event, and the position.
  unfoldable pub record_fill : Order D → M (Client D J W) (Unit {0})
  record_fill o c =
      if is_empty_text o.client_order_id
      then ret tt c
      else (do log_fill o; within trade_state (fill_position o)) c

  -- case PARTIALLY_FILLED, case FILLED
  unfoldable pub update_fill : Order D → M (Client D J W) (Unit {0})
  update_fill o = do record_fill o; track_order o; enforce_open_order_limit j h o.symbol

  -- case CANCELED, case REJECTED
  unfoldable pub update_end : Order D → M (Client D J W) (Unit {0})
  unfolding registered_trade_id log_trade_event
  update_end o = do
    modify λ c. record c { open_orders = erase o.id c.open_orders }
    (if is_empty_text o.client_order_id then skip else (do
      trade_id ← within trade_state (registered_trade_id h o.client_order_id)
      event_id ← ask_host (generate_uuid_v4 h)
      now ← ask_host h.system_ms
      log_trade_event (record (blank_event j) {
        trade_id = trade_id;
        event_id = event_id;
        event_timestamp = now;
        event_type = elim o.status [ canceled ↦ order_cancelled | _ ↦ order_rejected ];
        model_id = o.client_order_id;
        trading_symbol = o.symbol;
        order_id = some o.id;
        client_order_id = some o.client_order_id;
        side = some (event_side o.side);
        additional_data = j.put "order_status" (j.of_string (h.order_status_text o.status)) j.null;
      })))

  abbrev dispatch : OrderStatus → Order D → M (Client D J W) (Unit {0})
  dispatch new o = update_new o
  dispatch partially_filled o = update_fill o
  dispatch filled o = update_fill o
  dispatch canceled o = update_end o
  dispatch rejected o = update_end o
  dispatch unhandled o = skip

  unfoldable pub process_sdk_order_update : Order D → M (Client D J W) (Unit {0})
  process_sdk_order_update o c =
      if is_empty_text o.id
      then ret tt c
      else if not (str_eq o.symbol c.trading_symbol)
      then ret tt c
      else within open_orders_lock (dispatch o.status o) c
