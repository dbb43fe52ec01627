-- ===== src/Client/OrderSocket.antt =====
-- cpp_exec/exec_bridge.cpp: the handlers that `setupOrderWebSocket` installs on the order WebSocket,
-- `order_ws_error_handler_`, the thread that fills the order cache, and `stop`.
pub mod Armed
use hl_cli.Prelude.{Bool, true, false, not, ◌&&◌, Option, none, some, String, str_eq, if◌then◌else◌}
use hl_cli.Double.{Double}
use hl_cli.Json.{Json}
use hl_cli.Host.{Host}
use hl_cli.Machine.{M, ret, thrown, pure, modify, try_catch, ◌>>=◌, ◌>>◌}
use hl_cli.Client.{Client, within, ws}
use hl_cli.Client.Bootstrap.{Sdk, bootstrap_order_cache}

module _ {D J W : Type 0} where
  -- The handler of an opened connection.
  unfoldable pub on_open : M (Client D J W) (Unit {0})
  on_open = modify λ c. record c { ws_connected = true; ws_connection_healthy = true }

  abbrev pub reset_flags : Client D J W → Client D J W
  reset_flags c = record c {
    ws_connected = false;
    ws_orders_subscribed = false;
    ws_connection_healthy = false;
    ws_orders_initialized = false;
    bootstrap_in_progress = false;
  }

  -- `order_ws_error_handler_`, which the handlers of a failure and of a close call.
  unfoldable pub order_ws_error_handler : M (Client D J W) (Unit {0})
  order_ws_error_handler = within ws (modify reset_flags)

  -- What follows the SDK's answer to the subscription; true if a thread is started that runs
  -- `bootstrap_thread`.
  unfoldable pub on_subscribed : Bool → M (Client D J W) Bool
  on_subscribed true c =
      ret (not c.bootstrap_in_progress)
        (record c { ws_orders_subscribed = true; bootstrap_in_progress = true })
  on_subscribed false c = ret false (record c {
    ws_orders_subscribed = false;
    ws_orders_initialized = false;
    ws_connection_healthy = false;
  })

module _ {D J W : Type 0} (j : Json D J) (subscribe : String → W → Option (Bool × W)) where
  -- `subscribe_user_orders` of the SDK (none: it throws).
  unfoldable pub subscribe_orders : M (Client D J W) Bool
  unfolding on_subscribed
  subscribe_orders c = elim (subscribe c.trading_symbol c.net.world) [
    | none ↦ thrown "subscribe" c
    | some (done, w) ↦ on_subscribed done (record c { net = record c.net { world = w } })
  ]

  -- A message that can be read: only one of the type "authenticated" is acted upon.
  unfoldable pub read_message : J → M (Client D J W) Bool
  read_message v c =
      if j.contains v "type"
      then (elim (j.get_string (j.field v "type")) [
        | none ↦ thrown "type_error" c
        | some type ↦ if str_eq type "authenticated" then subscribe_orders c else ret false c
      ])
      else ret false c

  -- The handler of a message, which catches what is thrown.
  unfoldable pub on_message : String → M (Client D J W) Bool
  unfolding read_message subscribe_orders
  on_message message =
      try_catch
        (λ c. elim (j.parse message) [ none ↦ thrown "parse_error" c | some v ↦ read_message v c ])
        (λ e. pure false)

module _ {D J W : Type 0} ⦃d : Double D⦄ (j : Json D J) (h : Host W) (sdk : Sdk) where
  -- The thread that a subscription starts.
  unfoldable pub bootstrap_thread : M (Client D J W) (Unit {0})
  bootstrap_thread =
      bootstrap_order_cache j h sdk >> modify λ c. record c { bootstrap_in_progress = false }

module _ {D J W : Type 0} (h : Host W) where
  -- `stop`, less the wait for the subscriber's thread; `disconnect` is the SDK's (none: it throws,
  -- which is caught).
  unfoldable pub stop : (W → Option W) → M (Client D J W) (Unit {0})
  stop disconnect c =
      let c1 = record c { running = false; ws_connected = false; ws_orders_initialized = false } in
      if c.has_client && h.is_connected c.net.world
      then (elim (disconnect c.net.world) [
        | none ↦ ret tt c1
        | some w ↦ ret tt (record c1 { net = record c.net { world = w } })
      ])
      else ret tt c1
