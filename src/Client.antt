-- ===== src/Client.antt =====
-- cpp_exec/exec_bridge.hpp and exec_bridge.cpp, class `DefaultExecutionClient`: its state, and the
-- mutexes that its methods lock. The children hold the methods.
use hl_cli.Prelude.{ℕ, Bool, true, false, Option, List, String, Assoc, if◌then◌else◌}
pub mod Events
pub mod OpenOrders
pub mod Updates
pub mod Sizes
pub mod Payload
pub mod Send
pub mod Ticks
pub mod Fills
pub mod Poll
pub mod Positions
pub mod Ladder
pub mod Bootstrap
pub mod Quotes
pub mod OrderSocket
pub mod Maker
pub mod Start
use hl_cli.Rest.{Net}
use hl_cli.Machine.{M, Outcome, ret, thrown, stuck}
use hl_cli.Data.{Order, OrderRequest, Position, ActivePosition, RestingOrder, TradeEventData}

-- The mutexes: `trade_state_mutex_`, `openOrdersMutex_`, `order_cache_mutex_`,
-- `missing_order_ids_mutex_` and `ws_mutex_`.
pub data Lock : Type 0 where
  trade_state open_orders_lock order_cache_lock missing_order_ids ws : Lock

abbrev pub same_lock : Lock → Lock → Bool
same_lock trade_state trade_state = true
same_lock open_orders_lock open_orders_lock = true
same_lock order_cache_lock order_cache_lock = true
same_lock missing_order_ids missing_order_ids = true
same_lock ws ws = true
same_lock _ _ = false

-- A thread that polls the status of an order: `poll_order_status` with these arguments, less the
-- entry price, which it does not read.
pub record PollTask (D : Type 0) : Type 0 where
  pub symbol : String
  pub order_id : String
  pub original : OrderRequest D
  pub model_id : String

-- The fields that the modelled methods read or write. `trade_event_log` is the file of events, the
-- latest first, or `none` while it is not open; `held` tells which mutexes the running thread
-- holds; `positions_file` is the text of positions.json; `polls` lists the detached threads that
-- were started, the latest first; `net` is what the REST calls change.
pub record Client (D J W : Type 0) : Type 0 where
  pub trading_symbol : String
  pub api_key : String
  pub base64_private_key : String
  pub has_client : Bool  -- `client_` is not null
  pub tick_size : D
  pub qty_step : D
  pub min_qty : D
  pub best_bid : D
  pub best_ask : D
  pub bid_qty : D
  pub ask_qty : D
  pub last_update : ℕ
  pub running : Bool
  pub trade_id_map : Assoc String
  pub recently_missing_order_ids : List String
  pub open_positions : List (Position D)
  pub active_positions : Assoc (ActivePosition D)
  pub open_orders : Assoc (RestingOrder D)
  pub order_cache : Assoc (Order D)
  pub ws_orders_initialized : Bool
  pub ws_connected : Bool
  pub ws_orders_subscribed : Bool
  pub ws_connection_healthy : Bool
  pub bootstrap_in_progress : Bool
  pub trade_event_log : Option (List (TradeEventData D J))
  pub positions_file : Option String
  pub polls : List (PollTask D)
  pub held : Lock → Bool
  pub net : Net W

abbrev pub hold : Lock → (Lock → Bool) → Lock → Bool
hold l held k = if same_lock l k then true else held k

module _ {D J W : Type 0} where
  abbrev pub release :
      {A : Type 0} → (Lock → Bool) → Outcome (Client D J W) A → Outcome (Client D J W) A
  release held (ret a c) = ret a (record c { held = held })
  release held (thrown e c) = thrown e (record c { held = held })
  release held stuck = stuck

  -- The scope of a `std::lock_guard`: on every way out the mutex is free again. The thread that
  -- holds it already never gets it.
  abbrev pub within : {A : Type 0} → Lock → M (Client D J W) A → M (Client D J W) A
  within l body c = elim (c.held l) [
    | true ↦ stuck
    | false ↦ release c.held (body (record c { held = hold l c.held }))
  ]

  -- A question to the host.
  abbrev pub ask_host : {A : Type 0} → (W → A × W) → M (Client D J W) A
  ask_host f c = let (a, w) = f c.net.world in ret a (record c { net = record c.net { world = w } })
