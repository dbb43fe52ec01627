-- ===== src/Client/Bootstrap.antt =====
-- cpp_exec/exec_bridge.cpp: `bootstrapOrderCache`, which fills the cache of open orders.
pub mod Cached
use hl_cli.Prelude.{
  Bool, true, false, not, ◌||◌, Option, none, some, List, [], ◌∷◌, String, is_empty_text,
  if◌then◌else◌, insert,
}
use hl_cli.Double.{Double, nought}
use hl_cli.Json.{Json, value_string}
use hl_cli.Host.{Host}
use hl_cli.Machine.{M, ret, pure, modify, skip, try_catch, ◌>>=◌, ◌>>◌}
use hl_cli.Rate.{RestClass}
use hl_cli.Numbers.{json_get_double, or_default}
use hl_cli.Data.{OrderSide, buy, OrderType, limit, OrderStatus, new, partially_filled, Order}
use hl_cli.Client.{Client, within, order_cache_lock}
use hl_cli.Client.OpenOrders.{signed}
use hl_cli.Client.Send.{or_throw, order_id_of}

-- The conversions of the SDK: `string_to_order_status`, `string_to_order_side` and
-- `string_to_order_type`.
pub record Sdk : Type 0 where
  pub status_of : String → Option OrderStatus
  pub side_of : String → Option OrderSide
  pub type_of : String → Option OrderType

abbrev pub is_live : OrderStatus → Bool
is_live new = true
is_live partially_filled = true
is_live _ = false

module _ {D J W : Type 0} ⦃d : Double D⦄ (j : Json D J) (h : Host W) (sdk : Sdk) where
  -- The order of a member of the reply.
  unfoldable pub read_order : J → String → OrderStatus → M (Client D J W) (Order D)
  read_order v order_id status c =
      (do
        symbol ← or_throw j h (value_string j v "symbol" c.trading_symbol)
        client_order_id ← or_throw j h (value_string j v "clientOrderId" "")
        side ← or_throw j h (value_string j v "side" "")
        type ← or_throw j h (value_string j v "type" "")
        timestamp ← or_throw j h (value_string j v "timestamp" "")
        pure (record {
          id = order_id;
          symbol = symbol;
          status = status;
          client_order_id = client_order_id;
          side = or_default buy (sdk.side_of side);
          type = or_default limit (sdk.type_of type);
          quantity = json_get_double j v "quantity" nought;
          price = json_get_double j v "price" nought;
          executed_quantity = json_get_double j v "executedQty" nought;
          timestamp = timestamp;
        }))
        c

  abbrev cache_order : String → Order D → Client D J W → Client D J W
  cache_order order_id o c = record c { order_cache = insert order_id o c.order_cache }

  -- A member with an identifier: only live orders are cached.
  unfoldable pub cache_live : J → String → Option OrderStatus → M (Client D J W) (Unit {0})
  cache_live v order_id none c = ret tt c
  cache_live v order_id (some status) c =
      if is_live status
      then (do o ← read_order v order_id status; modify (cache_order order_id o)) c
      else ret tt c

  unfoldable pub bootstrap_named : J → String → M (Client D J W) (Unit {0})
  bootstrap_named v order_id c =
      if is_empty_text order_id
      then ret tt c
      else (do
        status ← or_throw j h (value_string j v "status" "")
        cache_live v order_id (sdk.status_of status))
          c

  -- One member of the reply.
  unfoldable pub bootstrap_order : J → M (Client D J W) (Unit {0})
  bootstrap_order v = do order_id ← order_id_of j h v; bootstrap_named v order_id

  unfoldable pub bootstrap_orders : List J → M (Client D J W) (Unit {0})
  bootstrap_orders [] = skip
  bootstrap_orders (v ∷ vs) = do bootstrap_order v; bootstrap_orders vs

  -- What is done under `order_cache_mutex_`.
  unfoldable pub fill_cache : J → M (Client D J W) (Unit {0})
  fill_cache reply = do
    modify λ c. record c { order_cache = [] }
    bootstrap_orders (if j.is_array reply then j.elements reply else [])
    modify λ c. record c { ws_orders_initialized = true }

  -- The `catch` block.
  abbrev drop_cache : M (Client D J W) (Unit {0})
  drop_cache =
      modify (λ c. record c { ws_orders_initialized = false })
      >> within order_cache_lock (modify λ c. record c { order_cache = [] })

  unfoldable pub bootstrap_order_cache : M (Client D J W) (Unit {0})
  bootstrap_order_cache c =
      if not c.has_client || not (h.is_connected c.net.world)
      then ret tt (record c { ws_orders_initialized = false })
      else try_catch
          (do
            reply ←
                signed j h RestClass.order_query "GET" "/api/v1/orders" "orderQueryAll"
                  (j.put "symbol" (j.of_string c.trading_symbol) j.null)
            within order_cache_lock (fill_cache reply))
          (λ e. drop_cache) c
