-- ===== src/Client/Positions/Restored.antt =====
-- The file positions.json of cpp_exec/exec_bridge.cpp: what is read back of what was written.
use hl_cli.Prelude.{
  ◌^◌, ◌<◌, ◌≡◌, refl, ap, ◌∙◌, false, Option, none, some, List, [], ◌∷◌, String, arith, pos, Assoc,
  insert, find, find-insert, All,
}
use hl_cli.Double.{Double, nought}
use hl_cli.Json.{Json, HasMembers, HasScalars, HasValues}
use hl_cli.Json.Objects.{put_all, AllHave, put_all-AllHave, IsDistinct, HasItems}
use hl_cli.Data.{OrderSide, buy, sell, ActivePosition, TradeEventType}
use hl_cli.Machine.{ret, Returns, Returns-bind, ◌>>◌}
use hl_cli.Client.{Client, trade_state, hold}
use hl_cli.Client.Events.{order_side_to_string}
use hl_cli.Client.Payload.Members.{Has}
use hl_cli.Client.Positions.Items.{IsDated, file_members, find-IsNew, items-positions_json}
use hl_cli.Client.Positions.{
  price_or_null, position_json, stop_of, side_of, read_position, read_positions, positions_json,
  positions_to_json, load_positions_from_json,
}

-- What the file keeps of a position: not the state of its closure, and not what was filled so far.
abbrev pub restored : {D : Type 0} ⦃d : Double D⦄ → ActivePosition D → ActivePosition D
restored ap = record ap {
  quantity_filled_so_far = nought;
  closing_order_id = none;
  closure_type = TradeEventType.other;
  pending_closure = false;
}

side_of-order_side_to_string : (s : OrderSide) → side_of (order_side_to_string s) ≡ s
unfolding order_side_to_string
side_of-order_side_to_string buy = refl
side_of-order_side_to_string sell = refl

module _ {D J : Type 0} ⦃d : Double D⦄ (j : Json D J) (laws : HasMembers D J ⦃j = j⦄)
    (scalars : HasScalars D J ⦃j = j⦄) (values : HasValues D J ⦃j = j⦄) where
  -- The members of a position, of which the last is written first.
  abbrev position_members : ActivePosition D → List (String × J)
  position_members ap =
      ("stop_order_ids", j.of_strings ap.stop_order_ids)
      ∷ ("order_ids", j.of_strings ap.order_ids)
      ∷ ("entry_timestamp", j.of_ℤ (pos ap.entry_timestamp))
      ∷ ("quantity", j.of_double ap.quantity)
      ∷ ("stop_loss_price", price_or_null j ap.stop_loss_price)
      ∷ ("entry_price", j.of_double ap.entry_price)
      ∷ ("side", j.of_string (order_side_to_string ap.side))
      ∷ ("trading_symbol", j.of_string ap.trading_symbol)
      ∷ ("model_id", j.of_string ap.model_id)
      ∷ []

  position_json-put_all :
      (ap : ActivePosition D) → position_json j ap ≡ put_all j (position_members ap)
  unfolding position_json
  position_json-put_all ap =
      rw (position_json, values.put-null "model_id" (j.of_string ap.model_id)) refl

  stop_of-Has :
      (stop : Option D) (v : J)
      → Has j "stop_loss_price" (price_or_null j stop) v
      → stop_of j v ≡ some stop
  unfolding stop_of
  stop_of-Has none v has = ground (arith, values.is_number-null)
  stop_of-Has (some x) v has =
      ground (arith, values.is_number-of_double x, values.get_double-of_double x)

  read_position-AllHave :
      (ap : ActivePosition D) (v : J)
      → ap.entry_timestamp < 2 ^ 63
      → AllHave j (position_members ap) v
      → read_position j v ≡ some (restored ap)
  unfolding read_position
  read_position-AllHave ap v small
        (
          obj,
          (
            stop_ids,
            (order_ids, (time, (quantity, (stop, (price, (side, (symbol, (model, end)))))))),
          ),
        ) =
      ground (
        arith,
        scalars.get_string-of_string ap.model_id,
        scalars.get_string-of_string ap.trading_symbol,
        scalars.get_string-of_string (order_side_to_string ap.side),
        side_of-order_side_to_string ap.side,
        values.get_double-of_double ap.entry_price,
        stop_of-Has ap.stop_loss_price v stop,
        values.get_double-of_double ap.quantity,
        scalars.get_int64-of_ℤ ap.entry_timestamp small,
        values.get_strings-of_strings ap.order_ids,
        values.get_strings-of_strings ap.stop_order_ids,
      )

  pub read_position-position_json :
      (ap : ActivePosition D)
      → ap.entry_timestamp < 2 ^ 63
      → read_position j (position_json j ap) ≡ some (restored ap)
  read_position-position_json ap small = rw (position_json-put_all ap) (
      read_position-AllHave ap (put_all j (position_members ap)) small
        (put_all-AllHave j laws (position_members ap) (ground arith)))

module _ {D : Type 0} ⦃d : Double D⦄ where
  abbrev pub restored_or :
      Option (ActivePosition D) → Option (ActivePosition D) → Option (ActivePosition D)
  restored_or none other = other
  restored_or (some ap) other = some (restored ap)

  -- The positions of the file, one after the other.
  insert_all : Assoc (ActivePosition D) → Assoc (ActivePosition D) → Assoc (ActivePosition D)
  insert_all m [] = m
  insert_all m ((id, ap) ∷ ps) = insert_all (insert id (restored ap) m) ps

  find-insert_all :
      (k : String) (ps m : Assoc (ActivePosition D))
      → IsDistinct ps
      → find k (insert_all m ps) ≡ restored_or (find k ps) (find k m)
  unfolding find insert_all
  find-insert_all k [] m distinct = refl
  find-insert_all k ((id, ap) ∷ ps) m (new, distinct) = ground (
    arith,
    find-insert_all k ps (insert id (restored ap) m) distinct,
    find-insert id k (restored ap) m,
    find-IsNew id k ps new,
  )

-- The positions in `t` are those of `c` as the file keeps them.
abbrev pub AreRestored : {D J W : Type 0} ⦃d : Double D⦄ → Client D J W → Client D J W → Type 0
AreRestored c t =
    (k : String) → find k t.active_positions ≡ restored_or (find k c.active_positions) none

module _ {D J W : Type 0} ⦃d : Double D⦄ (j : Json D J) (laws : HasMembers D J ⦃j = j⦄)
    (scalars : HasScalars D J ⦃j = j⦄) (values : HasValues D J ⦃j = j⦄)
    (items : HasItems D J ⦃j = j⦄) where
  read_positions-file_members :
      (ps : Assoc (ActivePosition D)) (c : Client D J W)
      → All IsDated ps
      → read_positions j (file_members j ps) c
        ≡ ret tt (record c { active_positions = insert_all c.active_positions ps })
  unfolding read_positions insert_all
  read_positions-file_members [] c small = refl
  read_positions-file_members ((id, ap) ∷ ps) c (small, more) = ground (
    arith,
    read_position-position_json j laws scalars values ap small,
    read_positions-file_members ps
        (record c { active_positions = insert id (restored ap) c.active_positions }) more,
  )

  positions_to_json_lem :
      (c : Client D J W)
      → c.held trade_state ≡ false
      → positions_to_json j c
        ≡ ret tt (record c {
          positions_file = some (j.dump_pretty (positions_json j c.active_positions j.object));
        })
  unfolding positions_to_json
  positions_to_json_lem c free = ground arith

  load_positions_from_json_lem :
      (c : Client D J W) (text : String) (v : J) (ps : Assoc (ActivePosition D))
      → c.held trade_state ≡ false
      → c.positions_file ≡ some text
      → j.parse text ≡ some v
      → j.items v ≡ file_members j ps
      → All IsDated ps
      → load_positions_from_json j c ≡ ret tt (record c { active_positions = insert_all [] ps })
  unfolding load_positions_from_json
  load_positions_from_json_lem c text v ps free file whole members dated = ground (
    arith,
    read_positions-file_members ps
        (record c { active_positions = []; held = hold trade_state c.held }) dated,
  )

  -- A client that writes its positions and loads them again, as after a restart, in a thread that
  -- does not hold `trade_state_mutex_`: both calls return, and every position is back under its
  -- identifier, with everything but the state of its closure and the quantity filled so far, which
  -- are not written; nothing else changes. (The times of entry fit into 63 bits, and the text that
  -- is written can be read again as the object it was written of, whose members are gone over in
  -- some order, each once.)
  pub load-positions_to_json :
      (c : Client D J W)
      → c.held trade_state ≡ false
      → IsDistinct c.active_positions
      → All IsDated c.active_positions
      → j.parse (j.dump_pretty (positions_json j c.active_positions j.object))
        ≡ some (positions_json j c.active_positions j.object)
      → Returns
          (λ _ t.
            AreRestored c t
            × (t ≡ record c {
              active_positions = t.active_positions;
              positions_file = t.positions_file;
            }))
          ((positions_to_json j >> load_positions_from_json j) c)
  unfolding find
  load-positions_to_json c free distinct dated whole =
      let v = positions_json j c.active_positions j.object in
      let text = j.dump_pretty v in
      let saved : Client D J W = record c { positions_file = some text } in
      let (ps, members, once, small, same_find) =
        items-positions_json j laws items c.active_positions distinct dated in
      let loaded = load_positions_from_json_lem saved text v ps free refl whole members small in
      Returns-bind (λ _ s. s ≡ saved) _ (positions_to_json j) (λ _. load_positions_from_json j) c
        (rw (positions_to_json_lem c free) refl)
        λ _ s same.
          rw (same, loaded)
            (
              (λ k.
                  find-insert_all k ps [] once
                  ∙ ap (λ (o : Option (ActivePosition D)). restored_or o none) (same_find k)),
              refl,
            )
