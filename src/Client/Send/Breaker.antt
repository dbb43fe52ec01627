-- ===== src/Client/Send/Breaker.antt =====
-- `send_order` of cpp_exec/exec_bridge.cpp: what a call leaves behind.
use hl_cli.Prelude.{
  ℕ, suc, length, str_eq, ◌≤◌, ◌+◌, ◌<◌, ◌≡◌, true, false, not, ◌&&◌, ◌⊎◌, Option, none, some,
  String, is_empty_text, if◌then◌else◌, arith,
}
use hl_cli.Double.{Double}
use hl_cli.Json.{Json}
use hl_cli.Host.{Host}
use hl_cli.Machine.{Outcome, ret, thrown, stuck, ◌>>=◌, ◌>>◌}
use hl_cli.Rate.{RestClass}
use hl_cli.Data.{OrderRequest}
use hl_cli.Client.{Client}
use hl_cli.Client.OpenOrders.{signed, max_open_orders, count_symbol}
use hl_cli.Client.Updates.Fills.{last_event, is_open}

module _ {D J W : Type 0} ⦃d : Double D⦄ (j : Json D J) (h : Host W) where
  -- A REST call changes nothing but what it costs.
  abbrev pub Asked : {A : Type 0} → Client D J W → Outcome (Client D J W) A → Type 0
  Asked c (ret a c') = c' ≡ record c { net = c'.net }
  Asked c (thrown e c') = c' ≡ record c { net = c'.net }
  Asked c stuck = ⊥

  pub signed-Asked :
      (cls : RestClass) (method endpoint instruction : String) (params : J) (c : Client D J W)
      → Asked c (signed j h cls method endpoint instruction params c)
  unfolding signed
  signed-Asked cls method endpoint instruction params c = ground arith

  abbrev Unchanged : {A : Type 0} → Client D J W → Outcome (Client D J W) A → Type 0
  Unchanged c (ret a c') = c' ≡ c
  Unchanged c (thrown e c') = c' ≡ c
  Unchanged c stuck = ⊥

  abbrev last_sent : Client D J W → Option String
  last_sent c = elim (last_event c) [ none ↦ none | some e ↦ e.order_id ]

  abbrev Logged : OrderRequest D → String → Client D J W → Client D J W → Type 0
  Logged o id c c' =
      (last_sent c' ≡ (if is_open c then some id else last_sent c))
      × (c'.open_orders ≡ c.open_orders)
      × (c'.trading_symbol ≡ c.trading_symbol)
      × (c'.net.requests ≡ c.net.requests)
      × (c'.held ≡ c.held)

  abbrev Broken : String → Client D J W → Client D J W → Type 0
  Broken symbol c c' =
      ((count_symbol symbol c' + 1 < max_open_orders)
        ⊎ (str_eq symbol c.trading_symbol ≡ false)
        ⊎ (str_eq symbol "" ≡ true)
        ⊎ ((c'.open_orders ≡ c.open_orders)
            × (suc (length c.net.requests) ≤ length c'.net.requests)))
      × (c'.trade_event_log ≡ c.trade_event_log)
      × (c'.held ≡ c.held)

  abbrev pub After : ℕ → OrderRequest D → String → Client D J W → Client D J W → Type 0
  After sent o id c c' =
      (last_sent c' ≡ (if not (is_empty_text id) && is_open c then some id else last_sent c))
      × ((is_empty_text id ≡ true)
          ⊎ (count_symbol o.symbol c' + 1 < max_open_orders)
          ⊎ (str_eq o.symbol c.trading_symbol ≡ false)
          ⊎ (str_eq o.symbol "" ≡ true)
          ⊎ ((c'.open_orders ≡ c.open_orders)
              × (sent + length c.net.requests ≤ length c'.net.requests)))
      × (c'.held ≡ c.held)

  -- What a call of `send_order` comes to.
  abbrev pub Placed : OrderRequest D → Client D J W → Outcome (Client D J W) String → Type 0
  Placed o c (ret id c') = After 2 o id c c'
  Placed o c (thrown e c') =
      (c'.open_orders ≡ c.open_orders)
      × (c'.trade_event_log ≡ c.trade_event_log)
      × (c'.held ≡ c.held)
  Placed o c stuck = ⊥
