-- ===== src/Client/Start.antt =====
-- cpp_exec/exec_bridge.cpp: what the constructor of `DefaultExecutionClient` makes of its arguments.
-- `net` holds what the REST calls keep between them.
use hl_cli.Prelude.{Bool, true, false, none, some, [], String, str_eq, if◌then◌else◌}
use hl_cli.Double.{Double, nought}
use hl_cli.Rest.{Net}
use hl_cli.Client.{Client}

module _ {D : Type 0} ⦃d : Double D⦄ where
  -- The tick, the step and the least quantity of a market.
  unfoldable pub market_of : String → D × D × D
  market_of symbol =
      if str_eq symbol "WIF_USDC_PERP"
      then (d.lit 1 4, d.lit 1 2, d.lit 1 2)
      else (d.lit 1 2, d.lit 1 0, d.lit 1 5)

module _ {D J W : Type 0} ⦃d : Double D⦄ where
  -- The client, once the constructor is done. The SDK's client is made; the file of events opens if
  -- `log_opens`.
  unfoldable pub initial_client : String → String → String → Bool → Net W → Client D J W
  unfolding market_of
  initial_client api_key key symbol log_opens net =
      let (tick, step, least) = market_of symbol in
      record {
        trading_symbol = symbol;
        api_key = api_key;
        base64_private_key = key;
        has_client = true;
        tick_size = tick;
        qty_step = step;
        min_qty = least;
        best_bid = nought;
        best_ask = nought;
        bid_qty = nought;
        ask_qty = nought;
        last_update = 0;
        running = true;
        trade_id_map = [];
        recently_missing_order_ids = [];
        open_positions = [];
        active_positions = [];
        open_orders = [];
        order_cache = [];
        ws_orders_initialized = false;
        ws_connected = false;
        ws_orders_subscribed = false;
        ws_connection_healthy = false;
        bootstrap_in_progress = false;
        trade_event_log = if log_opens then some [] else none;
        positions_file = none;
        polls = [];
        held = λ l. false;
        net = net;
      }
