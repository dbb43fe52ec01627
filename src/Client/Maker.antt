-- ===== src/Client/Maker.antt =====
-- cpp_exec/exec_bridge.cpp: `postOnlyMaker`, which asks the risk manager.
use hl_cli.Prelude.{◌≡◌, refl, Bool, Option, none, some, String, if◌then◌else◌}
use hl_cli.Double.{Double}
use hl_cli.Machine.{M, Outcome, ret, thrown, stuck}
use hl_cli.Risk.{RiskManager, check_order_risk}
use hl_cli.Risk.Limits.{check_order_risk-stuck}
use hl_cli.Data.{buy, sell, OrderType, TimeInForce, OrderRequest}
use hl_cli.Client.{Client}

-- The client and its risk manager, which has a mutex of its own.
pub record Maker (D J W R : Type 0) : Type 0 where
  pub client : Client D J W
  pub risk : RiskManager D R

module _ {D J W : Type 0} ⦃d : Double D⦄ where
  -- A post-only order must not cross the spread.
  abbrev pub would_cross : Bool → D → Client D J W → Bool
  would_cross is_buy limit_price c =
      if is_buy then d.le c.best_ask limit_price else d.le limit_price c.best_bid

  abbrev pub maker_request : Bool → D → D → Client D J W → OrderRequest D
  maker_request is_buy size limit_price c = record {
    symbol = c.trading_symbol;
    side = if is_buy then buy else sell;
    type = OrderType.limit;
    quantity = size;
    price = limit_price;
    time_in_force = TimeInForce.gtc;
  }

module _ {D J W R : Type 0} ⦃d : Double D⦄ where
  -- What follows the risk manager's answer. `create_order` is the SDK's: the identifier of the order
  -- (none: it throws, which is caught).
  unfoldable pub after_risk :
      (OrderRequest D → W → Option String × W)
      → OrderRequest D
      → Client D J W
      → Outcome (RiskManager D R) Bool
      → Outcome (Maker D J W R) String
  after_risk create_order request c (ret fine r) =
      if fine
      then (let (id, w) = create_order request c.net.world in
          let c' = record c { net = record c.net { world = w } } in
          elim id [
            | none ↦ ret "" (record { client = c'; risk = r })
            | some s ↦ ret s (record { client = c'; risk = r })
          ])
      else ret "" (record { client = c; risk = r })
  after_risk create_order request c (thrown e r) = ret "" (record { client = c; risk = r })
  after_risk create_order request c stuck = stuck

  unfoldable pub post_only_maker :
      (OrderRequest D → W → Option String × W) → Bool → D → D → M (Maker D J W R) String
  post_only_maker create_order is_buy size limit_price m =
      if would_cross is_buy limit_price m.client
      then ret "" m
      else after_risk create_order (maker_request is_buy size limit_price m.client) m.client
          (check_order_risk is_buy size limit_price m.risk)

  -- `postOnlyMaker` never places an order: an order that would cross the spread is refused, with
  -- nothing changed, and every other one blocks its thread for ever in the risk manager, which locks
  -- its own mutex twice.
  pub post_only_maker_lem :
      (create_order : OrderRequest D → W → Option String × W) (is_buy : Bool) (size limit_price : D)
      (m : Maker D J W R)
      → post_only_maker create_order is_buy size limit_price m
        ≡ (if would_cross is_buy limit_price m.client then ret "" m else stuck)
  unfolding post_only_maker after_risk
  post_only_maker_lem create_order is_buy size limit_price m =
      rw (check_order_risk-stuck is_buy size limit_price m.risk) refl
