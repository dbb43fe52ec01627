-- ===== src/Client/Payload.antt =====
-- cpp_exec/exec_bridge.cpp: the JSON object that `send_order` sends.
pub mod Members
pub mod Sent
use hl_cli.Prelude.{
  Bool, true, false, not, ◌&&◌, ◌||◌, Option, none, some, String, str_eq, if◌then◌else◌,
}
use hl_cli.Double.{Double, nought}
use hl_cli.Json.{Json}
use hl_cli.Data.{
  OrderSide, buy, sell, OrderType, market, limit, OrderRequest, OrderFlags, ConditionalOrderParams,
}
use hl_cli.Client.{Client}
use hl_cli.Client.Sizes.{on_grid, format_quantity, format_quantity_string, format_price_string}

abbrev pub is_buy : OrderSide → Bool
is_buy buy = true
is_buy sell = false

abbrev pub is_limit : OrderType → Bool
is_limit limit = true
is_limit market = false

abbrev pub side_text : OrderSide → String
side_text buy = "Bid"
side_text sell = "Ask"

abbrev pub type_text : OrderType → String
type_text market = "Market"
type_text limit = "Limit"

abbrev pub is_set : {A : Type 0} → Option A → Bool
is_set none = false
is_set (some _) = true

module _ {D J W : Type 0} ⦃d : Double D⦄ where
  -- A limit order at this price would take liquidity.
  abbrev pub crosses : Client D J W → OrderSide → D → Bool
  crosses c buy price = d.le c.best_ask price && d.lt nought c.best_ask
  crosses c sell price = d.le price c.best_bid && d.lt nought c.best_bid

  abbrev pub passive_price : Client D J W → OrderSide → D
  passive_price c buy = on_grid c.tick_size (d.sub c.best_ask c.tick_size)
  passive_price c sell = on_grid c.tick_size (d.add c.best_bid c.tick_size)

  -- The price of a post-only order that would cross the spread, if it can be adjusted.
  unfoldable pub adjusted_price : Client D J W → OrderRequest D → OrderFlags → Option D
  adjusted_price c o flags =
      if flags.post_only && is_limit o.type && d.lt nought o.price && crosses c o.side o.price
      then (let price = passive_price c o.side in
          if crosses c o.side price then none else some price)
      else none

module _ {D J : Type 0} (j : Json D J) where
  unfoldable pub add_strategy_flags : OrderFlags → J → J
  add_strategy_flags flags params =
      let params' = if flags.post_only then j.put "postOnly" (j.of_bool true) params else params in
      if flags.reduce_only then j.put "reduceOnly" (j.of_bool true) params' else params'

  abbrev put_text : String → String → J → J
  put_text key value params = j.put key (j.of_string value) params

  abbrev holds_text : J → String → String → Bool
  holds_text params key value = elim (j.get_string (j.field params key)) [
    | none ↦ false
    | some s ↦ str_eq s value
  ]

  -- `timeInForce` of an order with a stop or a target.
  unfoldable pub conditional_tif : OrderType → ConditionalOrderParams D → J → J
  conditional_tif type cond params =
      if is_set cond.stop_loss_trigger_price || is_set cond.take_profit_trigger_price
      then (if j.contains params "timeInForce"
          then (if not (is_limit type) && holds_text params "timeInForce" "IOC"
              then put_text "timeInForce" "GTC" params
              else params)
          else put_text "timeInForce" "GTC" params)
      else params

  -- The names that the exchange expects for the side and the type.
  unfoldable pub exchange_names : OrderSide → OrderType → J → J
  exchange_names side type params =
      let sided =
        if j.contains params "side" then put_text "side" (side_text side) params else params in
      if j.contains sided "type" then put_text "type" (type_text type) sided else sided

  -- "type" becomes "orderType".
  unfoldable pub rename_type : OrderType → J → J
  rename_type type params =
      let erased = if j.contains params "type" then j.erase "type" params else params in
      put_text "orderType" (type_text type) erased

module _ {D J W : Type 0} ⦃d : Double D⦄ (j : Json D J) where
  unfoldable pub put_price : Client D J W → String → Option D → J → J
  put_price c key none params = params
  put_price c key (some price) params = put_text j key (format_price_string c price) params

  -- Up to the first formatting of the quantity and the price. `base` is `order_request.to_json()`.
  unfoldable pub tagged : Client D J W → OrderRequest D → OrderFlags → String → J → J
  unfolding add_strategy_flags
  tagged c o flags model_id base =
      let flagged = add_strategy_flags j flags (j.erase "clientOrderId" base) in
      let params =
        put_text j "quantity" (format_quantity_string c (format_quantity c o.quantity))
          (put_text j "clientOrderId" model_id flagged) in
      if d.lt nought o.price
      then put_text j "price" (format_price_string c o.price) params
      else params

  unfoldable pub conditioned : Client D J W → ConditionalOrderParams D → J → J
  unfolding put_price
  conditioned c cond params = put_price c "takeProfitLimitPrice" cond.take_profit_limit_price (
      put_price c "stopLossLimitPrice" cond.stop_loss_limit_price (
        put_price c "takeProfitTriggerPrice" cond.take_profit_trigger_price
          (put_price c "stopLossTriggerPrice" cond.stop_loss_trigger_price params)))

  -- The quantity and the price, once more; an adjusted price is left alone.
  unfoldable pub reformatted : Client D J W → OrderRequest D → Option D → J → J
  reformatted c o adjusted params =
      let sized =
        if j.contains params "quantity"
        then put_text j "quantity" (format_quantity_string c (format_quantity c o.quantity)) params
        else params in
      if not (is_set adjusted) && j.contains sized "price" && d.lt nought o.price
      then put_text j "price" (format_price_string c o.price) sized
      else sized

  unfoldable pub order_payload :
      Client D J W → OrderRequest D → OrderFlags → ConditionalOrderParams D → String → J → J
  order_payload c o flags cond model_id base =
      let adjusted = adjusted_price c o flags in
      rename_type j o.type (
        reformatted c o adjusted (
          exchange_names j o.side o.type (
            conditional_tif j o.type cond (
              conditioned c cond (put_price c "price" adjusted (tagged c o flags model_id base))))))
