-- ===== src/Client/OpenOrders.antt =====
-- cpp_exec/exec_bridge.cpp: the map `openOrders_`, its circuit breaker and the cancellations.
pub mod Bounds
pub mod Keys
pub mod Sweep
use hl_cli.Prelude.{
  ℕ, ◌+◌, ◌-◌, Bool, true, false, ◌&&◌, not, none, some, List, [], ◌∷◌, ltb, leb, ◌||◌,
  if◌then◌else◌, String, str_eq, is_empty_text, Assoc, erase, erase_if, count_if, ℤ, pos,
}
use hl_cli.Json.{Json}
use hl_cli.Host.{Host}
use hl_cli.Machine.{
  M, ret, thrown, stuck, pure, throw, gets, modify, skip, try_catch, for_each, ◌>>=◌, ◌>>◌,
}
use hl_cli.Rate.{RestClass}
use hl_cli.Rest.{ok, error, execute_signed_request}
use hl_cli.Data.{RestingOrder}
use hl_cli.Client.{Client, within, ask_host, open_orders_lock}

abbrev pub max_open_orders : ℕ
max_open_orders = 150

-- 30 seconds, in nanoseconds
abbrev pub max_order_age : ℕ
max_order_age = 30_000_000_000

abbrev pub has_symbol : {D : Type 0} → String → RestingOrder D → Bool
has_symbol symbol o = str_eq o.symbol symbol

-- `for (const auto& kv : m) if (test(kv.second)) v.push_back(kv.second)`
unfoldable pub select :
    {D : Type 0} → (RestingOrder D → Bool) → Assoc (RestingOrder D) → List (RestingOrder D)
select test [] = []
select test ((k, o) ∷ m) = if test o then o ∷ select test m else select test m

-- The orders older than `max_order_age`.
abbrev pub is_stale : {D : Type 0} → ℕ → RestingOrder D → Bool
is_stale now o = ltb max_order_age (now - o.placed_at)

module _ {D J W : Type 0} where
  abbrev pub drop_symbol : String → Client D J W → Client D J W
  drop_symbol symbol c = record c { open_orders = erase_if (has_symbol symbol) c.open_orders }

  abbrev pub count_symbol : String → Client D J W → ℕ
  count_symbol symbol c = count_if (has_symbol symbol) c.open_orders

module _ {D J W : Type 0} (j : Json D J) (h : Host W) where
  -- `execute_signed_request`, as a method of the client.
  unfoldable pub signed : RestClass → String → String → String → J → M (Client D J W) J
  signed cls method endpoint instruction params c =
      let (r, n) =
        execute_signed_request j h cls c.api_key c.base64_private_key method endpoint instruction
          params c.net in
      elim r [ ok v ↦ ret v (record c { net = n }) | error e ↦ thrown e (record c { net = n }) ]

  abbrev pub order_params : String → String → J
  order_params symbol order_id =
      j.put "orderId" (j.of_string order_id) (j.put "symbol" (j.of_string symbol) j.null)

  unfoldable pub cancel_order : String → String → M (Client D J W) Bool
  unfolding signed
  cancel_order symbol order_id =
      try_catch
        (do
          _ ←
              signed RestClass.trade "DELETE" "/api/v1/order" "orderCancel"
                (order_params symbol order_id)
          pure true)
        (λ e. pure false)

  -- The number of orders that the reply to "cancel all" tells of: `value("count", 1)`, which throws
  -- if the reply is no object or holds no number there.
  reply_count : J → M (Client D J W) ℤ
  reply_count v =
      if j.is_array v
      then pure (pos (j.size v))
      else if not (j.is_object v)
      then throw "type_error"
      else if not (j.contains v "count")
      then pure (pos 1)
      else elim (j.get_int64 (j.field v "count")) [ none ↦ throw "type_error" | some n ↦ pure n ]

  unfoldable pub cancel_all_orders : String → M (Client D J W) ℤ
  unfolding signed reply_count
  cancel_all_orders symbol =
      let params =
        if is_empty_text symbol then j.null else j.put "symbol" (j.of_string symbol) j.null in
      try_catch
        (do
          v ← signed RestClass.trade "DELETE" "/api/v1/orders" "orderCancelAll" params
          reply_count v)
        (λ e. pure (pos 0))

  unfoldable pub cancel_single_order : String → String → M (Client D J W) Bool
  unfolding signed
  cancel_single_order order_id symbol c =
      if is_empty_text order_id || is_empty_text symbol
      then ret false c
      else if not (str_eq symbol c.trading_symbol)
      then ret false c
      else try_catch
          (do
            _ ←
                signed RestClass.trade "DELETE" "/api/v1/order" "orderCancel"
                  (order_params symbol order_id)
            pure true)
          (λ e. pure false) c

  unfoldable pub cancel_all_for_symbol : String → M (Client D J W) Bool
  unfolding signed
  cancel_all_for_symbol symbol c =
      if is_empty_text symbol
      then ret false c
      else if not (str_eq symbol c.trading_symbol)
      then ret false c
      else try_catch
          (do
            _ ←
                signed RestClass.trade "DELETE" "/api/v1/orders" "orderCancelAll"
                  (j.put "symbol" (j.of_string symbol) j.null)
            within open_orders_lock (modify (drop_symbol symbol))
            pure true)
          (λ e. pure false) c

  unfoldable pub enforce_open_order_limit : String → M (Client D J W) (Unit {0})
  unfolding cancel_all_for_symbol
  enforce_open_order_limit symbol c =
      if is_empty_text symbol || not (str_eq symbol c.trading_symbol)
      then ret tt c
      else (do
        count ← within open_orders_lock (gets (count_symbol symbol))
        (if leb max_open_orders count then (do _ ← cancel_all_for_symbol symbol; skip) else skip))
          c

  -- The loop over the orders to cancel: how many requests were accepted.
  cancel_each : List (RestingOrder D) → String → ℕ → M (Client D J W) ℕ
  cancel_each [] symbol count c = ret count c
  cancel_each (o ∷ os) symbol count c = elim (cancel_single_order o.order_id symbol c) [
    | ret done c' ↦ cancel_each os symbol (if done then count + 1 else count) c'
    | thrown e c' ↦ thrown e c'
    | stuck ↦ stuck
  ]

  unfoldable pub cancel_orders_by_model_id : String → String → M (Client D J W) ℕ
  unfolding cancel_each cancel_single_order
  cancel_orders_by_model_id symbol model_id = do
    orders ← within open_orders_lock (
        gets λ c. select (λ o. str_eq o.symbol symbol && str_eq o.client_id model_id) c.open_orders)
    cancel_each orders symbol 0

  -- One order of a sweep: it is dropped from the map whatever `cancel_order` returns.
  unfoldable pub sweep_order : RestingOrder D → M (Client D J W) (Unit {0})
  unfolding cancel_order
  sweep_order o =
      try_catch
        (do
          _ ← cancel_order o.symbol o.order_id
          within open_orders_lock
              (modify λ c. record c { open_orders = erase o.order_id c.open_orders }))
        (λ e. skip)

  -- One round of `sweeperThread`, after its sleep.
  unfoldable pub sweep : M (Client D J W) (Unit {0})
  unfolding sweep_order
  sweep = do
    stale ←
        within open_orders_lock
          (do now ← ask_host h.steady_ns; gets λ c. select (is_stale now) c.open_orders)
    for_each stale sweep_order
