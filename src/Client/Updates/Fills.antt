-- ===== src/Client/Updates/Fills.antt =====
-- The fills of `processSdkOrderUpdate` in cpp_exec/exec_bridge.cpp: what is logged, and what becomes
-- of the position and of the order.
use hl_cli.Prelude.{
  ◌≡◌, Bool, true, false, not, ◌&&◌, Option, none, some, [], ◌∷◌, arith, ◌⊎◌, if◌then◌else◌, String,
  str_eq, eq_refl, find, find-insert,
}
use hl_cli.Double.{Double, nought}
use hl_cli.Json.{Json}
use hl_cli.Host.{Host}
use hl_cli.Machine.{Returns}
use hl_cli.Data.{OrderSide, buy, sell, Order, ActivePosition, TradeEventData, TradeEventType}
use hl_cli.Client.{Client}
use hl_cli.Client.Updates.{is_filled, same_text, fill_position, filled_position, closure_pnl}

module _ {D J W : Type 0} where
  -- The latest event of the log.
  abbrev pub last_event : Client D J W → Option (TradeEventData D J)
  last_event c = elim c.trade_event_log [
    | none ↦ none
    | some l ↦ elim l [ [] ↦ none | e ∷ _ ↦ some e ]
  ]

  abbrev pub is_open : Client D J W → Bool
  is_open c = elim c.trade_event_log [ none ↦ false | some _ ↦ true ]

  abbrev pub last_filled : Client D J W → Option D
  last_filled c = elim (last_event c) [ none ↦ none | some e ↦ e.filled_quantity ]

  abbrev pub last_pnl : Client D J W → Option D
  last_pnl c = elim (last_event c) [ none ↦ none | some e ↦ e.pnl ]

  abbrev pub last_type : Client D J W → Option TradeEventType
  last_type c = elim (last_event c) [ none ↦ none | some e ↦ some e.event_type ]

module _ {D J W : Type 0} ⦃d : Double D⦄ (j : Json D J) (h : Host W) where
  -- The fill is the whole of the order that was sent to close the position.
  abbrev pub closes : Order D → ActivePosition D → Bool
  closes o p = p.pending_closure && same_text p.closing_order_id o.id && is_filled o.status

  -- The position that a fill leaves in the map.
  abbrev pub position_after : Order D → ActivePosition D → ActivePosition D
  position_after o p = record p {
    entry_price =
        if d.lt (d.lit 1 9) o.executed_quantity && d.lt nought o.price
        then o.price
        else p.entry_price;
    quantity_filled_so_far = o.executed_quantity;
    quantity = if is_filled o.status then o.executed_quantity else p.quantity;
    pending_closure = p.pending_closure && not (closes o p);
  }

  -- What the filled quantity earned: the price of the exit less that of the entry, for a position
  -- that was bought, and the other way round for one that was sold.
  abbrev pub earned : OrderSide → D → D → D → D
  earned buy entry exit quantity = d.mul (d.sub exit entry) quantity
  earned sell entry exit quantity = d.mul (d.sub entry exit) quantity

  -- The state after the fill `o` of the position `p`, and the entry of the model `other` in it.
  abbrev pub Filled : Order D → ActivePosition D → String → Client D J W → Client D J W → Type 0
  Filled o p other c c' =
      let logs = closes o p && is_open c in
      (find other c'.active_positions ≡ (
        if str_eq o.client_order_id other
        then some (position_after o p)
        else find other c.active_positions))
      × ((logs ≡ true) ⊎ (c'.trade_event_log ≡ c.trade_event_log))
      × (last_type c' ≡ (if logs then some p.closure_type else last_type c))
      × (last_pnl c' ≡ (
          if logs
          then some (earned p.side (position_after o p).entry_price o.price o.executed_quantity)
          else last_pnl c))
      × (is_open c' ≡ is_open c)
      × (c'.open_orders ≡ c.open_orders)
      × (c'.held ≡ c.held)

  -- The block of the handler that updates a position, for a fill of a known position: it always
  -- ends (it runs before the handler checks the limit of open orders). The position then has the
  -- cumulative quantity that the exchange states; the price of the fill becomes its entry price, if
  -- more than 1e-9 is filled at a price above 0; a complete fill makes the quantity its quantity
  -- too; the rest of it, and the positions of the other models, are as before. If the order is the
  -- one that was sent to close the position, and is FILLED, then the closure is no longer pending,
  -- and its event, with the profit between the entry price as it is then and the price of the fill,
  -- is the latest of the log (if the log is open); otherwise the log is as before.
  pub fill_position_lem :
      (o : Order D) (p : ActivePosition D) (other : String) (c : Client D J W)
      → find o.client_order_id c.active_positions ≡ some p
      → Returns (λ _. Filled o p other c) (fill_position j h o c)
  unfolding fill_position filled_position closure_pnl
  fill_position_lem o p other c known =
      let m = o.client_order_id in
      ground (arith, find-insert m other (position_after o p) c.active_positions, eq_refl m)

  -- The profit in the event of a closure, for the complete fill of more than 1e-9, at a price above
  -- 0, of the order that was sent to close the position, while the log is open: the block
  -- overwrites the entry price before it logs, so that the profit is the exit price less itself,
  -- times the quantity, whatever the position was entered at.
  pub fill_position-pnl :
      (o : Order D) (p : ActivePosition D) (c : Client D J W)
      → find o.client_order_id c.active_positions ≡ some p
      → closes o p ≡ true
      → is_open c ≡ true
      → d.lt (d.lit 1 9) o.executed_quantity ≡ true
      → d.lt nought o.price ≡ true
      → Returns
          (λ _ c'. last_pnl c' ≡ some (d.mul (d.sub o.price o.price) o.executed_quantity))
          (fill_position j h o c)
  unfolding fill_position filled_position closure_pnl
  fill_position-pnl o p c known complete opened some_filled priced = ground arith
