-- ===== src/Client/Quotes.antt =====
-- cpp_exec/exec_bridge.cpp: `handleL1Update`, the callback of the Redis subscriber,
-- `publishL1Update`, and `read_signal_file` of exec_bridge_helpers.cpp, which each update leads to.
use hl_cli.Prelude.{Option, none, some, String, str_eq, if◌then◌else◌, ℤ, pos, negsuc}
use hl_cli.Double.{Double, nought}
use hl_cli.Json.{Json, value_of, value_string}
use hl_cli.Host.{Host}
use hl_cli.Machine.{M, ret, thrown, skip, try_catch, ◌>>◌}
use hl_cli.Numbers.{json_get_double, json_get_int64, as_u64, and_then, or_default}
use hl_cli.Data.{OrderRequest, BookTicker, MlSignalPayload}
use hl_cli.Client.{Client}
use hl_cli.Client.Send.{check_for_new_signal}
use hl_cli.Client.Ticks.{on_tick}

module _ {D : Type 0} ⦃d : Double D⦄ where
  -- `MlSignalPayload{}`
  abbrev pub no_signal : MlSignalPayload D
  no_signal = record {
    timestamp_ms = pos 0;
    signal_action = pos 0;
    model_id = "";
    max_hold_bars_config = pos 0;
    stop_loss_pct_config = nought;
    order_quantity_config = nought;
  }

abbrev pub action_of : String → ℤ
action_of type = if str_eq type "buy" then pos 1 else if str_eq type "sell" then negsuc 0 else pos 0

module _ {D J : Type 0} ⦃d : Double D⦄ (j : Json D J) where
  -- `j[key]`, where a member that is not there is null.
  abbrev pub member_or_null : J → String → J
  member_or_null v key = if j.contains v key then j.field v key else j.null

  -- The fields of the signal file; none: one of the calls throws.
  unfoldable pub read_payload : J → Option (MlSignalPayload D)
  read_payload v = and_then (value_of j j.get_int64 v "timestamp" (pos 0)) λ timestamp.
      and_then (value_string j v "signal_type" "") λ type.
        and_then (value_string j v "signal_id" "") λ model_id.
          and_then (value_string j (member_or_null v "order_quantity_config") "quantity" "0")
            λ quantity_text. and_then (value_of j j.get_double v "confidence" nought) λ confidence.
              and_then (d.stod quantity_text) λ quantity. some (record {
                timestamp_ms = timestamp;
                signal_action = action_of type;
                model_id = model_id;
                max_hold_bars_config = pos 60;
                stop_loss_pct_config = d.mul confidence (d.lit 100 0);
                order_quantity_config = quantity;
              })

  -- `read_signal_file`, with the text of the file, or none if it cannot be opened.
  unfoldable pub read_signal_file : Option String → MlSignalPayload D
  unfolding read_payload
  read_signal_file file = or_default no_signal (and_then (and_then file j.parse) read_payload)

module _ {D J W : Type 0} where
  abbrev pub store_ticker : BookTicker D → Client D J W → Client D J W
  store_ticker t c = record c {
    best_bid = t.bid_price;
    best_ask = t.ask_price;
    bid_qty = t.bid_qty;
    ask_qty = t.ask_qty;
    last_update = t.timestamp;
  }

module _ {D J W : Type 0} ⦃d : Double D⦄ (j : Json D J) (h : Host W) where
  -- The ticker of a message; none: its symbol is missing or is no text.
  unfoldable pub read_ticker : J → Option (BookTicker D)
  read_ticker v =
      and_then (if j.contains v "symbol" then j.get_string (j.field v "symbol") else none) λ symbol.
        some (record {
          symbol = symbol;
          bid_price = json_get_double j v "bidPrice" nought;
          ask_price = json_get_double j v "askPrice" nought;
          bid_qty = json_get_double j v "bidQty" nought;
          ask_qty = json_get_double j v "askQty" nought;
          timestamp = as_u64 (json_get_int64 j h v "timestamp" (pos 0));
          update_id = as_u64 (json_get_int64 j h v "updateId" (pos 0));
        })

  module _ (to_json : OrderRequest D → J)
      (callback : BookTicker D → M (Client D J W) (Unit {0})) where
    -- What follows once a message is read; `callback` is `l1_callback_`, or does nothing.
    unfoldable pub take_ticker : BookTicker D → M (Client D J W) (Unit {0})
    take_ticker t c =
        (do
          (if str_eq t.symbol c.trading_symbol then on_tick j h to_json t.symbol else skip)
          callback t)
          (store_ticker t c)

    -- The `try` block of `handleL1Update`.
    unfoldable pub process_l1 : String → M (Client D J W) (Unit {0})
    process_l1 message c = elim (j.parse message) [
      | none ↦ thrown "parse_error" c
      | some v ↦ elim (read_ticker v) [ none ↦ thrown "type_error" c | some t ↦ take_ticker t c ]
    ]

    -- `handleL1Update`; `file` is what the signal file holds.
    unfoldable pub handle_l1_update : Option String → String → M (Client D J W) (Unit {0})
    handle_l1_update file message =
        try_catch (process_l1 message) (λ e. skip)
        >> check_for_new_signal j h to_json (read_signal_file j file)

    -- The callback `on_message` of the subscriber.
    unfoldable pub on_redis_message : Option String → String → String → M (Client D J W) (Unit {0})
    on_redis_message file channel message =
        if str_eq channel "l1:quotes" then handle_l1_update file message else skip

  abbrev pub ticker_json : BookTicker D → J
  ticker_json t = j.put "symbol" (j.of_string t.symbol) (
      j.put "bidPrice" (j.of_double t.bid_price) (
        j.put "askPrice" (j.of_double t.ask_price) (
          j.put "bidQty" (j.of_double t.bid_qty) (
            j.put "askQty" (j.of_double t.ask_qty) (
              j.put "timestamp" (j.of_ℤ (pos t.timestamp))
                (j.put "updateId" (j.of_string (h.decimal (pos t.update_id))) j.object))))))

  -- `publishL1Update`; `publish` is Redis on the output port (none: it throws).
  unfoldable pub publish_l1_update :
      (String → String → W → Option W) → BookTicker D → M (Client D J W) (Unit {0})
  publish_l1_update publish t c =
      elim (publish "l1:processed" (j.dump (ticker_json t)) c.net.world) [
        | none ↦ ret tt c
        | some w ↦ ret tt (record c { net = record c.net { world = w } })
      ]
