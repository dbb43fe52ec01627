-- ===== src/Client/Ladder.antt =====
-- cpp_exec/exec_bridge.cpp: `attempt_ladder_entry_order_with_fallback` and
-- `attempt_stop_loss_order_with_fallback`.
pub mod Unrecorded
use hl_cli.Prelude.{
  ℕ, zero, suc, ◌+◌, ◌*◌, Bool, true, false, none, List, [], ◌∷◌, ◌++◌, String, is_empty_text,
  if◌then◌else◌, find, insert, pos, eq_ℤ,
}
use hl_cli.Double.{Double, nought, of_ℕ}
use hl_cli.Json.{Json, value_string}
use hl_cli.Host.{Host}
use hl_cli.Machine.{M, ret, pure, gets, modify, skip, try_catch, ◌>>=◌, ◌>>◌}
use hl_cli.Rate.{RestClass}
use hl_cli.Data.{buy, sell, MlSignalPayload, ActivePosition, TradeEventType}
use hl_cli.Client.{Client, within, ask_host, trade_state}
use hl_cli.Client.OpenOrders.{signed}
use hl_cli.Client.Send.{or_throw}
use hl_cli.Client.Sizes.{on_grid, format_quantity, format_quantity_string, format_price_string}
use hl_cli.Client.Positions.{positions_to_json}
use hl_cli.Client.Ticks.{entry_or_new}

-- `BBO`
pub record Bbo (D : Type 0) : Type 0 where
  pub bid : D
  pub ask : D

-- What the levels of an attempt add up to: `placed_ids`, `any_success` and `last_level_price`.
pub record Levels (D : Type 0) : Type 0 where
  pub placed_ids : List String
  pub any_success : Bool
  pub last_level_price : D

abbrev num_levels : ℕ
num_levels = 3

abbrev fallback_safety_tick_increment : ℕ
fallback_safety_tick_increment = 2

abbrev pub max_fallback_attempts : ℕ
max_fallback_attempts = 3

module _ {D J W : Type 0} ⦃d : Double D⦄ (j : Json D J) (h : Host W) where
  abbrev is_long : MlSignalPayload D → Bool
  is_long p = eq_ℤ p.signal_action (pos 1)

  abbrev order_json : String → String → String → String → J
  order_json symbol side quantity price = j.put "timeInForce" (j.of_string "GTC") (
      j.put "price" (j.of_string price) (
        j.put "quantity" (j.of_string quantity) (
          j.put "orderType" (j.of_string "Limit")
            (j.put "side" (j.of_string side) (j.put "symbol" (j.of_string symbol) j.null)))))

  -- `resp.value("orderId", resp.value("id", ""))`
  unfoldable pub placed_id : J → M (Client D J W) String
  placed_id reply = do
    id ← or_throw j h (value_string j reply "id" "")
    or_throw j h (value_string j reply "orderId" id)

  unfoldable pub level_price : Client D J W → MlSignalPayload D → Bbo D → ℕ → D
  level_price c p bbo ticks =
      let distance = d.mul (of_ℕ ticks) c.tick_size in
      on_grid c.tick_size (if is_long p then d.sub bbo.bid distance else d.add bbo.ask distance)

  unfoldable pub place_order : J → M (Client D J W) String
  unfolding placed_id
  place_order params = do
    reply ← signed j h RestClass.trade "POST" "/api/v1/order" "orderExecute" params
    placed_id reply

  abbrev add_level : Levels D → D → String → Levels D
  add_level levels price id =
      if is_empty_text id then record levels { last_level_price = price } else record levels {
        placed_ids = levels.placed_ids ++ id ∷ [];
        any_success = true;
        last_level_price = price;
      }

  -- One level, `ticks` away from the market.
  unfoldable pub ladder_level :
      MlSignalPayload D → Bbo D → D → ℕ → Levels D → M (Client D J W) (Levels D)
  unfolding level_price place_order
  ladder_level p bbo qty ticks levels c =
      let price = level_price c p bbo ticks in
      if d.le price nought
      then ret levels c
      else try_catch
          (do
            id ← place_order (
                order_json c.trading_symbol (if is_long p then "Bid" else "Ask")
                  (format_quantity_string c qty) (format_price_string c price))
            pure (add_level levels price id))
          (λ e. pure (record levels { last_level_price = price })) c

  -- The levels from number `lvl` on, of which `left` are left.
  unfoldable pub ladder_levels :
      (left lvl : ℕ) → MlSignalPayload D → Bbo D → D → ℕ → Levels D → M (Client D J W) (Levels D)
  ladder_levels zero lvl p bbo qty buffer levels = pure levels
  ladder_levels (suc left) lvl p bbo qty buffer levels = do
    levels' ← ladder_level p bbo qty (lvl + buffer) levels
    ladder_levels left (suc lvl) p bbo qty buffer levels'

  -- The stop price, before it is sent.
  unfoldable pub stop_price : Client D J W → MlSignalPayload D → Bbo D → D
  stop_price c p bbo =
      let one = d.lit 1 0 in
      let pct = d.div p.stop_loss_pct_config (d.lit 100 0) in
      on_grid c.tick_size
        (if is_long p then d.mul bbo.bid (d.sub one pct) else d.mul bbo.ask (d.add one pct))

  abbrev stop_json : Client D J W → MlSignalPayload D → String → J
  stop_json c p price = j.put "stopLossLimitPrice" (j.of_string price) (
      j.put "stopLossTriggerPrice" (j.of_string price) (
        order_json c.trading_symbol (if is_long p then "Ask" else "Bid")
          (format_quantity_string c p.order_quantity_config) price))

  abbrev add_stop : String → String → Client D J W → Client D J W
  add_stop model_id id c =
      let ap = entry_or_new (find model_id c.active_positions) in
      record c {
        active_positions =
            insert model_id (record ap { stop_order_ids = ap.stop_order_ids ++ id ∷ [] })
              c.active_positions;
      }

  -- The identifier of the stop is recorded, and the file written, under `trade_state_mutex_`.
  unfoldable pub record_stop : String → String → M (Client D J W) (Unit {0})
  unfolding positions_to_json
  record_stop model_id id c =
      if is_empty_text id
      then ret tt c
      else within trade_state (modify (add_stop model_id id) >> positions_to_json j) c

  unfoldable pub attempt_stop_loss : MlSignalPayload D → Bbo D → M (Client D J W) (Unit {0})
  unfolding stop_price
  attempt_stop_loss p bbo c =
      let price = stop_price c p bbo in
      if d.le price nought
      then ret tt c
      else try_catch
          (do
            id ← place_order (stop_json c p (format_price_string c price))
            record_stop p.model_id id)
          (λ e. skip) c

  abbrev new_position : Client D J W → MlSignalPayload D → Levels D → ℕ → ActivePosition D
  new_position c p levels now = record {
    model_id = p.model_id;
    trading_symbol = c.trading_symbol;
    side = if is_long p then buy else sell;
    entry_price = levels.last_level_price;
    stop_loss_price = none;
    quantity = p.order_quantity_config;
    quantity_filled_so_far = nought;
    entry_timestamp = now;
    order_ids = levels.placed_ids;
    stop_order_ids = [];
    closing_order_id = none;
    closure_type = TradeEventType.other;
    pending_closure = false;
  }

  abbrev add_position : ActivePosition D → Client D J W → Client D J W
  add_position ap c = record c { active_positions = insert ap.model_id ap c.active_positions }

  -- The position of the orders that were placed is recorded, and the stop is sent.
  unfoldable pub persist : MlSignalPayload D → Bbo D → Levels D → M (Client D J W) (Unit {0})
  unfolding positions_to_json
  persist p bbo levels = do
    now ← ask_host h.system_ms
    c ← gets (λ c. c)
    within trade_state (modify (add_position (new_position c p levels now)) >> positions_to_json j)
    attempt_stop_loss p bbo

  -- The attempts from number `attempt` on, of which `left` are left. The identifiers that were
  -- placed stay in the list from one attempt to the next.
  unfoldable pub ladder_attempts :
      (left attempt : ℕ) → MlSignalPayload D → Bbo D → D → List String → M (Client D J W) (Unit {0})
  ladder_attempts zero attempt p bbo qty placed c = ret tt c
  ladder_attempts (suc left) attempt p bbo qty placed c =
      let none_yet : Levels D = record {
        placed_ids = placed;
        any_success = false;
        last_level_price = nought;
      } in
      (do
        levels ←
            ladder_levels num_levels 1 p bbo qty (attempt * fallback_safety_tick_increment) none_yet
        (elim levels.any_success [
          | true ↦ persist p bbo levels
          | false ↦ ladder_attempts left (suc attempt) p bbo qty levels.placed_ids
        ]))
        c

  unfoldable pub attempt_ladder : MlSignalPayload D → Bbo D → M (Client D J W) (Unit {0})
  attempt_ladder p bbo c =
      let qty = format_quantity c (d.div p.order_quantity_config (of_ℕ num_levels)) in
      if d.le qty nought then ret tt c else ladder_attempts max_fallback_attempts 0 p bbo qty [] c
