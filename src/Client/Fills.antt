-- ===== src/Client/Fills.antt =====
-- cpp_exec/exec_bridge.cpp: `process_fill_response`, which takes in the fills that a reply lists.
use hl_cli.Prelude.{
  Bool, ◌&&◌, ◌||◌, none, some, List, [], ◌∷◌, String, str_eq, is_empty_text, if◌then◌else◌, find,
  insert, pos,
}
use hl_cli.Double.{Double, nought}
use hl_cli.Json.{Json, value_string}
use hl_cli.Numbers.{json_get_double, json_get_int64, as_u64}
use hl_cli.Uuid.{generate_uuid_v4}
use hl_cli.Host.{Host}
use hl_cli.Machine.{M, ret, pure, gets, modify, ◌>>=◌, ◌>>◌}
use hl_cli.Data.{OrderRequest, entry_order_filled, entry_order_partially_filled}
use hl_cli.Client.{Client, within, ask_host, trade_state}
use hl_cli.Client.Events.{event_side, blank_event, log_trade_event, known_trade_id}
use hl_cli.Client.Send.{or_throw}

module _ {D J W : Type 0} ⦃d : Double D⦄ (j : Json D J) (h : Host W) where
  -- The fills that count, as quantity and price, in order.
  unfoldable pub fill_of : J → D × D
  fill_of fill = (json_get_double j fill "qty" nought, json_get_double j fill "price" nought)

  -- The total quantity and the weighted sum of the prices.
  unfoldable pub totals : List J → D → D → D × D
  unfolding fill_of
  totals [] quantity weighted = (quantity, weighted)
  totals (fill ∷ fills) quantity weighted =
      let (qty, price) = fill_of fill in
      if d.lt nought qty
      then totals fills (d.add quantity qty) (d.add weighted (d.mul price qty))
      else totals fills quantity weighted

  abbrev copy_member : J → String → String → J → J
  copy_member fill key name o = if j.contains fill key then j.put name (j.field fill key) o else o

  -- The event of one fill.
  unfoldable pub log_part :
      OrderRequest D → String → String → String → J → M (Client D J W) (Unit {0})
  unfolding fill_of log_trade_event
  log_part o model_id trade_id order_id fill = do
    event_id ← ask_host (generate_uuid_v4 h)
    now ← ask_host h.system_ms
    c ← gets (λ c. c)
    log_trade_event (record (blank_event j) {
      trade_id = trade_id;
      event_id = event_id;
      event_timestamp = as_u64 (json_get_int64 j h fill "timestamp" (pos now));
      event_type = entry_order_partially_filled;
      model_id = model_id;
      trading_symbol = o.symbol;
      order_id = some order_id;
      client_order_id = some model_id;
      price = some (fill_of fill).1;
      filled_quantity = some (fill_of fill).0;
      quantity = some o.quantity;
      side = some (event_side o.side);
      market_bid_at_event = some c.best_bid;
      market_ask_at_event = some c.best_ask;
      additional_data = copy_member fill "commissionAsset" "commissionAsset" (
          copy_member fill "commission" "commission"
            (copy_member fill "tradeId" "exchange_fill_id" j.null));
    })

  unfoldable pub log_nonzero :
      OrderRequest D → String → String → String → J → M (Client D J W) (Unit {0})
  log_nonzero o model_id trade_id order_id fill c =
      if d.lt nought (fill_of fill).0
      then log_part o model_id trade_id order_id fill c
      else ret tt c

  unfoldable pub log_parts :
      OrderRequest D → String → String → String → List J → M (Client D J W) (Unit {0})
  log_parts o model_id trade_id order_id [] c = ret tt c
  log_parts o model_id trade_id order_id (fill ∷ fills) c =
      (do
        log_nonzero o model_id trade_id order_id fill
        log_parts o model_id trade_id order_id fills)
        c

  -- `value("orderId", "")`, or else `value("id", "")`.
  unfoldable pub fill_order_id : J → M (Client D J W) String
  fill_order_id reply = do
    order_id ← or_throw j h (value_string j reply "orderId" "")
    (if is_empty_text order_id then or_throw j h (value_string j reply "id" "") else pure order_id)

  abbrev pub fills_of : J → List J
  fills_of reply =
      if j.contains reply "fills" && j.is_array (j.field reply "fills")
      then j.elements (j.field reply "fills")
      else []

  abbrev pub average : D × D → D
  average (quantity, weighted) = if d.lt nought quantity then d.div weighted quantity else nought

  abbrev is_complete : OrderRequest D → String → D → Bool
  is_complete o status quantity =
      str_eq status "FILLED"
      || (d.lt nought quantity && d.lt (d.abs (d.sub quantity o.quantity)) (d.lit 1 9))

  -- The event of the whole fill.
  unfoldable pub log_whole :
      OrderRequest D → String → String → String → J → D × D → M (Client D J W) (Unit {0})
  unfolding log_trade_event
  log_whole o model_id trade_id order_id reply sums = do
    event_id ← ask_host (generate_uuid_v4 h)
    now ← ask_host h.system_ms
    c ← gets (λ c. c)
    log_trade_event (record (blank_event j) {
      trade_id = trade_id;
      event_id = event_id;
      event_timestamp = now;
      event_type = entry_order_filled;
      model_id = model_id;
      trading_symbol = o.symbol;
      order_id = some order_id;
      client_order_id = some model_id;
      price = some (average sums);
      filled_quantity = some sums.0;
      quantity = some o.quantity;
      side = some (event_side o.side);
      market_bid_at_event = some c.best_bid;
      market_ask_at_event = some c.best_ask;
      additional_data =
          if j.contains reply "fills"
          then j.put "num_partial_fills" (j.of_ℤ (pos (j.size (j.field reply "fills")))) j.null
          else j.null;
    })

  -- The position takes over the average price and the total quantity.
  unfoldable pub settle_position : String → D × D → Client D J W → Client D J W
  settle_position model_id sums c = elim (find model_id c.active_positions) [
    | none ↦ c
    | some ap ↦ record c {
      active_positions =
          insert model_id (record ap { entry_price = average sums; quantity = sums.0 })
            c.active_positions;
    }
  ]

  -- The two steps that follow the status of the reply.
  unfoldable pub conclude :
      OrderRequest D → String → String → String → J → D × D → String → M (Client D J W) (Unit {0})
  unfolding log_whole
  conclude o model_id trade_id order_id reply sums status c =
      if is_complete o status sums.0 && d.lt nought sums.0
      then log_whole o model_id trade_id order_id reply sums c
      else ret tt c

  unfoldable pub settle_filled : String → D × D → M (Client D J W) (Unit {0})
  unfolding settle_position
  settle_filled model_id sums c =
      if d.lt nought (average sums) && d.lt nought sums.0
      then within trade_state (modify (settle_position model_id sums)) c
      else ret tt c

  -- From the loop over the fills on.
  unfoldable pub take_fills :
      J → OrderRequest D → String → String → String → M (Client D J W) (Unit {0})
  take_fills reply o model_id trade_id order_id =
      let sums = totals (fills_of reply) nought nought in
      do
        log_parts o model_id trade_id order_id (fills_of reply)
        status ← or_throw j h (value_string j reply "status" "")
        conclude o model_id trade_id order_id reply sums status
        settle_filled model_id sums

  unfoldable pub process_fill_response : J → OrderRequest D → String → M (Client D J W) (Unit {0})
  process_fill_response reply o model_id = do
    trade_id ← within trade_state (known_trade_id h model_id)
    order_id ← fill_order_id reply
    take_fills reply o model_id trade_id order_id
