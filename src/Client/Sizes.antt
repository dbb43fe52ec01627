-- ===== src/Client/Sizes.antt =====
-- cpp_exec/exec_bridge.cpp: quantities and prices on the exchange's grid, and how they are written.
use hl_cli.Prelude.{ℕ, zero, suc, ◌+◌, ◌≡◌, true, ◌&&◌, String, if◌then◌else◌, ◌⊎◌, arith}
use hl_cli.Double.{Double, IsOrdered, nought}
use hl_cli.Client.{Client}

module _ {D : Type 0} ⦃d : Double D⦄ where
  -- The nearest multiple of a step.
  abbrev pub on_grid : D → D → D
  on_grid step x = d.mul (d.round (d.div x step)) step

  -- The loop that counts the decimals of the tick size: `left` more may follow.
  count_decimals : (left : ℕ) → D → ℕ → ℕ
  count_decimals zero ts decimals = decimals
  count_decimals (suc left) ts decimals =
      let rest = count_decimals left (d.mul ts (d.lit 10 0)) (decimals + 1) in
      if d.lt ts (d.lit 1 0) then rest else decimals

  unfoldable pub step_quantity : (qty_step min_qty qty : D) → D
  step_quantity qty_step min_qty qty =
      let rounded = on_grid qty_step qty in
      let at_least_one = if d.eq rounded nought && d.lt nought qty then qty_step else rounded in
      if d.lt at_least_one min_qty then min_qty else at_least_one

  -- For a minimum that is a number, and a step and a rounded quantity that are numbers, the
  -- quantity that `format_quantity` returns, which is printed with two decimals afterwards, is
  -- never below the minimum, and it is the minimum, one step, or the multiple of the step that is
  -- nearest to what was asked for.
  pub step_quantity_lem :
      ⦃o : IsOrdered D⦄ (qty_step min_qty qty : D)
      → d.le min_qty min_qty ≡ true
      → d.le qty_step qty_step ≡ true
      → d.le (on_grid qty_step qty) (on_grid qty_step qty) ≡ true
      → let rounded = step_quantity qty_step min_qty qty in
        (d.le min_qty rounded ≡ true)
        × ((rounded ≡ min_qty) ⊎ (rounded ≡ qty_step) ⊎ (rounded ≡ on_grid qty_step qty))
  unfolding step_quantity
  step_quantity_lem ⦃o⦄ qty_step min_qty qty a b e = ground (
    arith,
    o.le_of_not_lt min_qty qty_step a b,
    o.le_of_not_lt min_qty (on_grid qty_step qty) a e,
  )

module _ {D J W : Type 0} ⦃d : Double D⦄ where
  unfoldable pub format_quantity : Client D J W → D → D
  format_quantity c qty = step_quantity c.qty_step c.min_qty qty

  unfoldable pub format_quantity_string : Client D J W → D → String
  format_quantity_string c qty = d.fixed (format_quantity c qty) 2

  unfoldable pub format_price_string : Client D J W → D → String
  unfolding count_decimals
  format_price_string c price = d.fixed (on_grid c.tick_size price) (count_decimals 8 c.tick_size 0)
