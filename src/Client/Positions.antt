-- ===== src/Client/Positions.antt =====
-- cpp_exec/exec_bridge.cpp: `positions_to_json` and `load_positions_from_json`, which keep the
-- active positions in a file. The file can always be opened for writing.
pub mod Items
pub mod Restored
use hl_cli.Prelude.{
  false, ◌&&◌, Option, none, some, List, [], ◌∷◌, String, str_eq, if◌then◌else◌, Assoc, insert, pos,
}
use hl_cli.Double.{Double, nought}
use hl_cli.Json.{Json, value_of, value_string}
use hl_cli.Machine.{M, ret, thrown, modify, skip, try_catch, ◌>>◌}
use hl_cli.Numbers.{and_then, as_u64}
use hl_cli.Data.{OrderSide, buy, sell, ActivePosition, TradeEventType}
use hl_cli.Client.{Client, within, trade_state}
use hl_cli.Client.Events.{order_side_to_string}

abbrev pub side_of : String → OrderSide
side_of s = if str_eq s (order_side_to_string buy) then buy else sell

module _ {D J : Type 0} (j : Json D J) where
  abbrev price_or_null : Option D → J
  price_or_null none = j.null
  price_or_null (some x) = j.of_double x

  unfoldable pub position_json : ActivePosition D → J
  unfolding order_side_to_string
  position_json ap = j.put "stop_order_ids" (j.of_strings ap.stop_order_ids) (
      j.put "order_ids" (j.of_strings ap.order_ids) (
        j.put "entry_timestamp" (j.of_ℤ (pos ap.entry_timestamp)) (
          j.put "quantity" (j.of_double ap.quantity) (
            j.put "stop_loss_price" (price_or_null ap.stop_loss_price) (
              j.put "entry_price" (j.of_double ap.entry_price) (
                j.put "side" (j.of_string (order_side_to_string ap.side)) (
                  j.put "trading_symbol" (j.of_string ap.trading_symbol)
                    (j.put "model_id" (j.of_string ap.model_id) j.null))))))))

  unfoldable pub positions_json : Assoc (ActivePosition D) → J → J
  unfolding position_json
  positions_json [] o = o
  positions_json ((id, ap) ∷ ps) o = positions_json ps (j.put id (position_json ap) o)

module _ {D J W : Type 0} (j : Json D J) where
  unfoldable pub positions_to_json : M (Client D J W) (Unit {0})
  positions_to_json = within trade_state (
      modify λ c. record c {
        positions_file = some (j.dump_pretty (positions_json j c.active_positions j.object));
      })

module _ {D J : Type 0} ⦃d : Double D⦄ (j : Json D J) where
  -- The stop price of a position that is read: none if it is no number.
  stop_of : J → Option (Option D)
  stop_of v =
      if j.contains v "stop_loss_price" && j.is_number (j.field v "stop_loss_price")
      then (elim (value_of j j.get_double v "stop_loss_price" nought) [
        | none ↦ none
        | some x ↦ some (some x)
      ])
      else some none

  -- A position out of the file; none: a `value` throws.
  unfoldable pub read_position : J → Option (ActivePosition D)
  unfolding stop_of order_side_to_string
  read_position v = and_then (value_string j v "model_id" "") λ model_id.
      and_then (value_string j v "trading_symbol" "") λ symbol.
        and_then (value_string j v "side" "") λ side.
          and_then (value_of j j.get_double v "entry_price" nought) λ entry_price.
            and_then (stop_of v) λ stop.
              and_then (value_of j j.get_double v "quantity" nought) λ quantity.
                and_then (value_of j j.get_int64 v "entry_timestamp" (pos 0)) λ time.
                  and_then (value_of j j.get_strings v "order_ids" []) λ order_ids.
                    and_then (value_of j j.get_strings v "stop_order_ids" []) λ stop_order_ids.
                      some (record {
                        model_id = model_id;
                        trading_symbol = symbol;
                        side = side_of side;
                        entry_price = entry_price;
                        stop_loss_price = stop;
                        quantity = quantity;
                        quantity_filled_so_far = nought;
                        entry_timestamp = as_u64 time;
                        order_ids = order_ids;
                        stop_order_ids = stop_order_ids;
                        closing_order_id = none;
                        closure_type = TradeEventType.other;
                        pending_closure = false;
                      })

module _ {D J W : Type 0} ⦃d : Double D⦄ (j : Json D J) where
  -- The loop over the members of the file: an exception leaves what was read before it.
  unfoldable pub read_positions : List (String × J) → M (Client D J W) (Unit {0})
  unfolding read_position
  read_positions [] c = ret tt c
  read_positions ((id, v) ∷ items) c = elim (read_position j v) [
    | none ↦ thrown "type_error" c
    | some ap ↦
        read_positions items (record c { active_positions = insert id ap c.active_positions })
  ]

  unfoldable pub load_positions_from_json : M (Client D J W) (Unit {0})
  unfolding read_positions
  load_positions_from_json c = elim c.positions_file [
    | none ↦ ret tt c
    | some text ↦
        try_catch
          (elim (j.parse text) [
            | none ↦ (λ c. thrown "parse_error" c)
            | some v ↦
                within trade_state
                  (do modify λ c. record c { active_positions = [] }; read_positions (j.items v))
          ])
          (λ e. skip) c
  ]
