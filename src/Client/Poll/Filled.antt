-- ===== src/Client/Poll/Filled.antt =====
-- `process_fill_response` of cpp_exec/exec_bridge.cpp: what becomes of the position.
use hl_cli.Prelude.{
  ◌≡◌, false, ◌&&◌, Option, none, some, List, [], ◌∷◌, String, str_eq, if◌then◌else◌, find, map,
}
use hl_cli.Double.{Double, nought}
use hl_cli.Json.{Json}
use hl_cli.Host.{Host}
use hl_cli.Machine.{Outcome, ret, thrown, stuck}
use hl_cli.Data.{OrderRequest, ActivePosition}
use hl_cli.Client.{Client, trade_state}
use hl_cli.Numbers.{json_get_double}
use hl_cli.Client.Fills.{totals, fills_of, average}

module _ {D J W : Type 0} where
  -- The positions and the mutexes stay as they were.
  abbrev Untouched : {A : Type 0} → Client D J W → Outcome (Client D J W) A → Type 0
  Untouched c (ret a c') = (c'.active_positions ≡ c.active_positions) × (c'.held ≡ c.held)
  Untouched c (thrown e c') = (c'.active_positions ≡ c.active_positions) × (c'.held ≡ c.held)
  Untouched c stuck = ⊥

module _ {D J W : Type 0} ⦃d : Double D⦄ (j : Json D J) (h : Host W) where
  -- The position of the model after a fill that adds up to `sums`.
  abbrev settled : D × D → Option (ActivePosition D) → Option (ActivePosition D)
  settled sums none = none
  settled sums (some p) =
      if d.lt nought (average j h sums) && d.lt nought sums.0
      then some (record p { entry_price = average j h sums; quantity = sums.0 })
      else some p

  -- The entry `k` of the positions after the reply.
  abbrev Settled : J → String → String → Client D J W → Outcome (Client D J W) (Unit {0}) → Type 0
  Settled reply model_id k c (ret _ c') = find k c'.active_positions ≡ (
      if str_eq model_id k
      then settled (totals j h (fills_of j h reply) nought nought) (find k c.active_positions)
      else find k c.active_positions)
  Settled reply model_id k c (thrown e c') = c'.active_positions ≡ c.active_positions
  Settled reply model_id k c stuck = ⊥

  module _ (reply : J) (o : OrderRequest D) (model_id k : String) (c : Client D J W)
      (free : c.held trade_state ≡ false) where
    abbrev Done : Client D J W → Outcome (Client D J W) (Unit {0}) → Type 0
    Done _ r = Settled reply model_id k c r

module _ {D J : Type 0} ⦃d : Double D⦄ (j : Json D J) where
  -- The quantities and prices of the fills in a reply, of those whose quantity is above 0.
  abbrev counted : List J → List (D × D)
  counted [] = []
  counted (fill ∷ fills) =
      let rest = counted fills in
      let quantity = json_get_double j fill "qty" nought in
      if d.lt nought quantity
      then (quantity, json_get_double j fill "price" nought) ∷ rest
      else rest

  abbrev sum_from : D → List D → D
  sum_from x [] = x
  sum_from x (y ∷ ys) = sum_from (d.add x y) ys

  -- How much was filled, and for how much.
  abbrev pub quantity_of : List J → D
  quantity_of fills = sum_from nought (map (λ x. x.0) (counted fills))

  abbrev pub worth_of : List J → D
  worth_of fills = sum_from nought (map (λ x. d.mul x.1 x.0) (counted fills))

  -- The position after fills of a quantity that are worth so much: the quantity, at the average
  -- price, if both are above 0.
  abbrev pub taken : D → D → Option (ActivePosition D) → Option (ActivePosition D)
  taken quantity worth none = none
  taken quantity worth (some p) =
      if d.lt nought quantity && d.lt nought (d.div worth quantity)
      then some (record p { entry_price = d.div worth quantity; quantity = quantity })
      else some p

  -- The fills in a reply: the member "fills", if it is an array.
  abbrev pub listed : J → List J
  listed reply =
      if j.contains reply "fills" && j.is_array (j.field reply "fills")
      then j.elements (j.field reply "fills")
      else []

module _ {D J W : Type 0} ⦃d : Double D⦄ (j : Json D J) (h : Host W) where
  -- The entry `k` of the positions after the reply.
  abbrev pub Taken : J → String → String → Client D J W → Outcome (Client D J W) (Unit {0}) → Type 0
  Taken reply model_id k c (ret _ c') = find k c'.active_positions ≡ (
      if str_eq model_id k
      then taken j (quantity_of j (listed j reply)) (worth_of j (listed j reply))
          (find k c.active_positions)
      else find k c.active_positions)
  Taken reply model_id k c (thrown e c') = c'.active_positions ≡ c.active_positions
  Taken reply model_id k c stuck = ⊥
