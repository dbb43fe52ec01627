-- ===== src/Client/Ticks.antt =====
-- cpp_exec/exec_bridge.cpp: the market data handlers, `handleL1Update` and `onTick`, which closes
-- the open positions that hit their stop or their time limit.
pub mod Due
pub mod Locking
use hl_cli.Prelude.{
  ℕ, zero, suc, true, false, not, ◌&&◌, Option, none, some, List, [], ◌∷◌, String, str_eq,
  if◌then◌else◌, find, insert, ℤ, pos, negsuc, ◌+ℤ◌, ltb_ℤ, leb_ℤ, eq_ℤ, length,
}
use hl_cli.Double.{Double, nought}
use hl_cli.Json.{Json}
use hl_cli.Host.{Host}
use hl_cli.Machine.{M, ret, modify, ◌>>=◌, ◌>>◌}
use hl_cli.Data.{
  buy, sell, OrderType, TimeInForce, OrderRequest, OrderFlags, no_flags, no_conditions, Position,
  ActivePosition, TradeEventType, position_closed_max_hold, position_closed_stop_loss,
}
use hl_cli.Client.{Client, PollTask, within, trade_state}
use hl_cli.Client.Send.{send_market}

-- `v[i]`, and its assignment; out of range there is nothing.
unfoldable pub get_elem? : {A : Type 0} → ℕ → List A → Option A
get_elem? i [] = none
get_elem? zero (x ∷ xs) = some x
get_elem? (suc i) (x ∷ xs) = get_elem? i xs

unfoldable pub set_elem : {A : Type 0} → ℕ → A → List A → List A
set_elem i y [] = []
set_elem zero y (x ∷ xs) = y ∷ xs
set_elem (suc i) y (x ∷ xs) = x ∷ set_elem i y xs

-- `std::string reason`, empty while the position is kept.
pub data Reason : Type 0 where
  keep time_stop stop_loss_hit : Reason

abbrev pub older : {D : Type 0} → Position D → Position D
older p = record p { bars_held = p.bars_held +ℤ pos 1 }

-- `OrderFlags{true}`: the first field is `post_only`.
abbrev pub closing_flags : OrderFlags
closing_flags = record no_flags { post_only = true }

abbrev closure_of : Reason → TradeEventType
closure_of time_stop = position_closed_max_hold
closure_of _ = position_closed_stop_loss

module _ {D : Type 0} ⦃d : Double D⦄ where
  -- `active_positions_[model_id]`: the entry, or `ActivePosition()`, whose side the code leaves
  -- uninitialised: `buy` stands for what it happens to be.
  abbrev pub entry_or_new : Option (ActivePosition D) → ActivePosition D
  entry_or_new (some ap) = ap
  entry_or_new none = record {
    model_id = "";
    trading_symbol = "";
    side = buy;
    entry_price = nought;
    stop_loss_price = none;
    quantity = nought;
    quantity_filled_so_far = nought;
    entry_timestamp = 0;
    order_ids = [];
    stop_order_ids = [];
    closing_order_id = none;
    closure_type = TradeEventType.other;
    pending_closure = false;
  }

module _ {D J W : Type 0} ⦃d : Double D⦄ where
  abbrev pub exit_price : Client D J W → Position D → D
  exit_price c p = if eq_ℤ p.side (pos 1) then c.best_bid else c.best_ask

  -- Whether a position, one bar older already, is to be closed.
  unfoldable pub close_reason : Client D J W → Position D → Reason
  close_reason c p =
      let price = exit_price c p in
      if ltb_ℤ (pos 0) p.max_hold_bars && leb_ℤ p.max_hold_bars p.bars_held
      then time_stop
      else if eq_ℤ p.side (pos 1) && d.lt nought price && d.le price p.stop_loss
      then stop_loss_hit
      else if eq_ℤ p.side (negsuc 0) && d.lt nought price && d.le p.stop_loss price
      then stop_loss_hit
      else keep

  -- The record of a closure that is under way.
  unfoldable pub mark_closing : Position D → String → Reason → Client D J W → Client D J W
  mark_closing p order_id reason c = record c {
    active_positions =
        insert p.model_id
          (record (entry_or_new (find p.model_id c.active_positions)) {
            closing_order_id = some order_id;
            closure_type = closure_of reason;
            pending_closure = true;
          })
          c.active_positions;
  }

  -- The thread that polls the closing order, as a market order.
  abbrev pub closing_task : Client D J W → Position D → String → PollTask D
  closing_task c p order_id = record {
    symbol = c.trading_symbol;
    order_id = order_id;
    original = record {
      symbol = c.trading_symbol;
      side = if eq_ℤ p.side (pos 1) then sell else buy;
      type = OrderType.market;
      quantity = p.size;
      price = exit_price c p;
      time_in_force = TimeInForce.gtc;
    };
    model_id = p.model_id;
  }

module _ {D J W : Type 0} where
  abbrev pub spawn : PollTask D → M (Client D J W) (Unit {0})
  spawn task = modify λ c. record c { polls = task ∷ c.polls }

module _ {D J W : Type 0} ⦃d : Double D⦄ (j : Json D J) (h : Host W)
    (to_json : OrderRequest D → J) where
  -- The closure of the position at hand.
  unfoldable pub close_position : Position D → Reason → M (Client D J W) (Unit {0})
  close_position p reason c =
      (do
        order_id ←
            send_market j h to_json c.trading_symbol p.size (not (eq_ℤ p.side (pos 1)))
              closing_flags no_conditions p.model_id
        within trade_state (modify (mark_closing p order_id reason))
        spawn (closing_task c p order_id))
        c

  -- One round of the loop, at the position `p`, one bar older, with the number `i`.
  unfoldable pub tick_position : ℕ → Position D → M (Client D J W) (Unit {0})
  tick_position i p c =
      let c' = record c { open_positions = set_elem i p c.open_positions } in
      elim (close_reason c p) [
        | keep ↦ ret tt c'
        | time_stop ↦ close_position p time_stop c'
        | stop_loss_hit ↦ close_position p stop_loss_hit c'
      ]

  -- The loop, from the position before number `i` down to the first.
  unfoldable pub tick_positions : ℕ → M (Client D J W) (Unit {0})
  unfolding get_elem?
  tick_positions zero c = ret tt c
  tick_positions (suc i) c = elim (get_elem? i c.open_positions) [
    | none ↦ tick_positions i c
    | some p ↦ (do tick_position i (older p); tick_positions i) c
  ]

  -- `onTick`. It reads the prices of the client, not its arguments.
  unfoldable pub on_tick : String → M (Client D J W) (Unit {0})
  on_tick symbol c =
      if not (str_eq symbol c.trading_symbol)
      then ret tt c
      else within trade_state (λ c'. tick_positions (length c'.open_positions) c') c
