-- ===== src/Client/OpenOrders/Bounds.antt =====
-- The circuit breaker of cpp_exec/exec_bridge.cpp: how many orders can be open.
use hl_cli.Prelude.{
  suc, List, length, length-append, ap, ◌≤◌, ◌<◌, ◌≡◌, Bool, true, false, ◌&&◌, ◌⊎◌, arith,
  if◌then◌else◌, String, str_eq, eq_iff, count_if-erase_if, count_if-erase_if_other,
}
use hl_cli.Json.{Json}
use hl_cli.Host.{Host, HttpRequest}
use hl_cli.Machine.{Outcome, ret, thrown, stuck, Returns}
use hl_cli.Rate.{RestClass}
use hl_cli.Rest.Retry.{execute-Sent}
use hl_cli.Client.{Client, open_orders_lock}
use hl_cli.Client.OpenOrders.{
  max_open_orders, has_symbol, signed, drop_symbol, count_symbol, cancel_all_for_symbol,
  enforce_open_order_limit,
}

module _ {D J W : Type 0} (j : Json D J) (h : Host W) where
  -- A REST call signs at least one request, however it ends.
  abbrev pub Asks : {A : Type 0} → Client D J W → Outcome (Client D J W) A → Type 0
  Asks c (ret a c') = suc (length c.net.requests) ≤ length c'.net.requests
  Asks c (thrown e c') = suc (length c.net.requests) ≤ length c'.net.requests
  Asks c stuck = ⊥

  pub signed-Asks :
      (cls : RestClass) (method endpoint instruction : String) (params : J) (c : Client D J W)
      → Asks c (signed j h cls method endpoint instruction params c)
  unfolding signed
  signed-Asks cls method endpoint instruction params c =
      let (extra, e, lo, hi, spent, all) =
        execute-Sent j h c.api_key c.base64_private_key method endpoint instruction params cls
          c.net in
      let n = length-append extra c.net.requests in
      let e' = ap (λ (l : List HttpRequest). length l) e in ground (arith, lo, n, e')

  count_symbol-drop_symbol :
      (symbol : String) (c : Client D J W) → count_symbol symbol (drop_symbol symbol c) ≡ 0
  count_symbol-drop_symbol symbol c = count_if-erase_if (has_symbol symbol) c.open_orders

  count_symbol-drop_other :
      (symbol other : String) (c : Client D J W)
      → str_eq symbol other ≡ false
      → count_symbol other (drop_symbol symbol c) ≡ count_symbol other c
  count_symbol-drop_other symbol other c ne =
      count_if-erase_if_other (has_symbol symbol) (has_symbol other) c.open_orders
        λ o e. ground (arith, eq_iff o.symbol symbol, eq_iff o.symbol other, eq_iff symbol other)

  abbrev pub Cancelled : String → String → Client D J W → Bool → Client D J W → Type 0
  Cancelled symbol other c done c' =
      (count_symbol other c' ≡ (if done && str_eq symbol other then 0 else count_symbol other c))
      × ((done ≡ false) ⊎ (symbol ≡ c.trading_symbol))
      × ((done ≡ true) ⊎ (c'.open_orders ≡ c.open_orders))
      × ((str_eq symbol c.trading_symbol ≡ false)
          ⊎ (str_eq symbol "" ≡ true)
          ⊎ (suc (length c.net.requests) ≤ length c'.net.requests))
      × (c'.trade_event_log ≡ c.trade_event_log)
      × (c'.held ≡ c.held)

  -- `cancelAllOrdersForSymbol`, called without `openOrdersMutex_`, always returns. If it returns
  -- true, the symbol is the traded one and none of its orders is left in the map, while the map
  -- holds as many orders of any other symbol as before; if it returns false, the map is as before.
  -- For the traded symbol, which is not empty, a request was signed. The log of events and the
  -- mutexes are as before.
  pub cancel_all_for_symbol_lem :
      (symbol other : String) (c : Client D J W)
      → c.held open_orders_lock ≡ false
      → Returns (Cancelled symbol other c) (cancel_all_for_symbol j h symbol c)
  unfolding cancel_all_for_symbol
  cancel_all_for_symbol_lem symbol other c free = ground (
    arith,
    eq_iff symbol c.trading_symbol,
    eq_iff symbol other,
    count_symbol-drop_symbol symbol c,
    count_symbol-drop_other symbol other c,
    signed-Asks RestClass.trade "DELETE" "/api/v1/orders" "orderCancelAll"
        (j.put "symbol" (j.of_string symbol) j.null) c,
  )

  abbrev pub Enforced : String → String → Client D J W → Client D J W → Type 0
  Enforced symbol other c c' =
      ((count_symbol symbol c' < max_open_orders)
        ⊎ ((c'.open_orders ≡ c.open_orders)
            × (suc (length c.net.requests) ≤ length c'.net.requests)))
      × ((max_open_orders ≤ count_symbol symbol c) ⊎ (c' ≡ c))
      × ((symbol ≡ other) ⊎ (count_symbol other c' ≡ count_symbol other c))
      × (c'.held ≡ c.held)

  -- A thread that holds `openOrdersMutex_` and calls `enforceOpenOrderLimit` for the traded symbol
  -- never gets out of it.
  pub enforce-stuck :
      (symbol : String) (c : Client D J W)
      → c.held open_orders_lock ≡ true
      → symbol ≡ c.trading_symbol
      → str_eq symbol "" ≡ false
      → enforce_open_order_limit j h symbol c ≡ stuck
  unfolding enforce_open_order_limit
  enforce-stuck symbol c busy e ne = ground (arith, eq_iff symbol c.trading_symbol)
