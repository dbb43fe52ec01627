-- ===== src/Tests/Orders.antt =====
-- Runs of the open orders, the sweeper, the sending of orders and the ticks of
-- cpp_exec/exec_bridge.cpp.
use mathlib.Core.List.{map}
use hl_cli.Prelude.{ℕ, ◌≡◌, refl, true, ◌⊎◌, [], ◌∷◌, pos, find}
use hl_cli.Double.Fixed.{Fixed, fixed_double, Fixed-IsOrdered}
use hl_cli.Host.{response}
use hl_cli.Machine.{ret, Returns}
use hl_cli.Data.{
  OrderRequest, buy, OrderType, TimeInForce, no_flags, no_conditions, Position, MlSignalPayload,
}
use hl_cli.Client.{Client}
use hl_cli.Client.OpenOrders.{cancel_all_for_symbol, sweep}
use hl_cli.Client.OpenOrders.Bounds.{Cancelled, cancel_all_for_symbol_lem}
use hl_cli.Client.OpenOrders.Sweep.{Swept, sweep_lem}
use hl_cli.Client.Sizes.{step_quantity, step_quantity_lem, on_grid}
use hl_cli.Client.Payload.{adjusted_price, order_payload}
use hl_cli.Client.Payload.Sent.{Sent, order_payload-Sent}
use hl_cli.Client.Ticks.{get_elem?, close_reason, on_tick, older}
use hl_cli.Client.Ticks.Due.{on_tick-quiet}
use hl_cli.Client.Ticks.Locking.{Fails, on_tick-due}
use hl_cli.Client.Ladder.{Bbo, attempt_ladder}
use hl_cli.Client.Ladder.Unrecorded.{Unrecorded, attempt_ladder-Unrecorded}
use hl_cli.Samples.Laws.{value-HasMembers}
use hl_cli.Samples.{
  member, text, empty_object, Value, World, null_value, value_json, scripted, price_of,
  sample_client,
}

-- A client whose next request is accepted, and one whose order is placed.
abbrev accepted : Client Fixed Value World
accepted = sample_client (response 200 "" ∷ [])

abbrev placing : Client Fixed Value World
placing = sample_client (response 200 "placed" ∷ [])

cancel_all_for_symbol_lem_example :
    Returns
      (Cancelled value_json scripted "SOL" "BTC" accepted)
      (cancel_all_for_symbol value_json scripted "SOL" accepted)
cancel_all_for_symbol_lem_example =
    cancel_all_for_symbol_lem value_json scripted "SOL" "BTC" accepted refl

sweep_lem_example :
    Returns (λ _. Swept value_json scripted "o1" accepted) (sweep value_json scripted accepted)
unfolding find
sweep_lem_example = sweep_lem value_json scripted "o1" accepted (refl, refl, (refl, refl, tt)) refl

step_quantity_lem_example :
    let sent = step_quantity (price_of 1) (price_of 1) (fixed_double.lit 4 1) in
    (fixed_double.le (price_of 1) sent ≡ true)
    × ((sent ≡ price_of 1)
        ⊎ (sent ≡ price_of 1)
        ⊎ (sent ≡ on_grid (price_of 1) (fixed_double.lit 4 1)))
step_quantity_lem_example =
    step_quantity_lem ⦃o = Fixed-IsOrdered⦄ (price_of 1) (price_of 1) (fixed_double.lit 4 1) refl
      refl refl

abbrev to_json : OrderRequest Fixed → Value
to_json o = null_value

abbrev sample_request : OrderRequest Fixed
sample_request = record {
  symbol = "SOL";
  side = buy;
  type = OrderType.limit;
  quantity = price_of 2;
  price = price_of 100;
  time_in_force = TimeInForce.gtc;
}

-- A long position with a stop at `stop`, for at most ten bars.
abbrev sample_open : ℕ → Position Fixed
sample_open stop = record {
  model_id = "m";
  entry_price = price_of 100;
  stop_loss = price_of stop;
  size = price_of 2;
  max_hold_bars = pos 10;
  bars_held = pos 3;
  side = pos 1;
  trade_id = "trade";
}

abbrev holding : ℕ → Client Fixed Value World
holding stop = record placing { open_positions = sample_open stop ∷ [] }

on_tick-quiet_example :
    on_tick value_json scripted to_json "SOL" (holding 90)
    ≡ ret tt (record (holding 90) { open_positions = map older (holding 90).open_positions })
unfolding get_elem? close_reason
on_tick-quiet_example = on_tick-quiet value_json scripted to_json "SOL" (holding 90) refl refl refl

on_tick-due_example : Fails (on_tick value_json scripted to_json "SOL" (holding 99))
unfolding get_elem? close_reason
on_tick-due_example = on_tick-due value_json scripted to_json "SOL" (holding 99) refl refl

abbrev sample_signal : MlSignalPayload Fixed
sample_signal = record {
  timestamp_ms = pos 1;
  signal_action = pos 1;
  model_id = "m";
  max_hold_bars_config = pos 60;
  stop_loss_pct_config = price_of 2;
  order_quantity_config = price_of 9;
}

abbrev sample_bbo : Bbo Fixed
sample_bbo = record { bid = price_of 99; ask = price_of 101 }

attempt_ladder-Unrecorded_example :
    Unrecorded placing (attempt_ladder value_json scripted sample_signal sample_bbo placing)
attempt_ladder-Unrecorded_example =
    attempt_ladder-Unrecorded value_json scripted sample_signal sample_bbo placing

-- What `to_json` of the SDK may give for the order.
abbrev sample_base : Value
sample_base = member "type" (text "limit") (member "side" (text "buy") empty_object)

order_payload-Sent_example :
    Sent value_json accepted sample_request "m"
      (adjusted_price accepted sample_request no_flags)
      (order_payload value_json accepted sample_request no_flags no_conditions "m" sample_base)
order_payload-Sent_example =
    order_payload-Sent value_json value-HasMembers accepted sample_request no_flags "m" sample_base
      refl no_conditions
