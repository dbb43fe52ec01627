-- ===== src/Client/Payload/Members.antt =====
-- The JSON object that `send_order` of cpp_exec/exec_bridge.cpp sends: what stands in its members.
use hl_cli.Prelude.{◌≡◌, true, false, Option, none, some, String, str_eq, eq_refl, arith}
use hl_cli.Double.{Double}
use hl_cli.Json.{Json, HasMembers}
use hl_cli.Data.{OrderSide, OrderType, OrderRequest, ConditionalOrderParams}
use hl_cli.Client.{Client}
use hl_cli.Client.Sizes.{format_quantity, format_quantity_string, format_price_string}
use hl_cli.Client.Payload.{
  side_text, type_text, conditional_tif, exchange_names, rename_type, put_price, conditioned,
  reformatted,
}

module _ {D J : Type 0} (j : Json D J) where
  -- The object `o` has the member `k`, with the value `v`.
  abbrev pub Has : String → J → J → Type 0
  Has k v o = (j.is_object o ≡ true) × (j.contains o k ≡ true) × (j.field o k ≡ v)

module _ {D J : Type 0} (j : Json D J) (laws : HasMembers D J ⦃j = j⦄) where
  pub put-Has : (k : String) (v o : J) → j.is_object o ≡ true → Has j k v (j.put k v o)
  put-Has k v o obj = ground (
    arith,
    obj,
    laws.is_object-put k v o obj,
    laws.contains-put k k v o obj,
    laws.field-put k k v o obj,
    eq_refl k,
  )

  pub put-Has_other :
      (k l : String) (v w o : J) → str_eq l k ≡ false → Has j k v o → Has j k v (j.put l w o)
  put-Has_other k l v w o ne (obj, has, same) = ground (
    arith,
    ne,
    has,
    same,
    laws.is_object-put l w o obj,
    laws.contains-put l k w o obj,
    laws.field-put l k w o obj,
  )

  erase-Has : (k l : String) (v o : J) → str_eq l k ≡ false → Has j k v o → Has j k v (j.erase l o)
  erase-Has k l v o ne (obj, has, same) = ground (
    arith,
    ne,
    has,
    same,
    laws.is_object-erase l o obj,
    laws.contains-erase l k o obj,
    laws.field-erase l k o obj ne,
  )

  conditional_tif-Has :
      (k : String) (v o : J) (type : OrderType) (cond : ConditionalOrderParams D)
      → str_eq "timeInForce" k ≡ false
      → Has j k v o
      → Has j k v (conditional_tif j type cond o)
  unfolding conditional_tif
  conditional_tif-Has k v o type cond ne has =
      ground (arith, has, put-Has_other k "timeInForce" v (j.of_string "GTC") o ne has)

  exchange_names-Has :
      (k : String) (v o : J) (side : OrderSide) (type : OrderType)
      → str_eq "side" k ≡ false
      → str_eq "type" k ≡ false
      → Has j k v o
      → Has j k v (exchange_names j side type o)
  unfolding exchange_names
  exchange_names-Has k v o side type ne ne' has =
      let w = j.of_string (side_text side) in
      let sided = put-Has_other k "side" v w o ne has in
      let t = j.of_string (type_text type) in
      ground (
        arith,
        has,
        sided,
        put-Has_other k "type" v t o ne' has,
        put-Has_other k "type" v t (j.put "side" w o) ne' sided,
      )

  pub rename_type-Has :
      (k : String) (v o : J) (type : OrderType)
      → str_eq "type" k ≡ false
      → str_eq "orderType" k ≡ false
      → Has j k v o
      → Has j k v (rename_type j type o)
  unfolding rename_type
  rename_type-Has k v o type ne ne' has =
      let t = j.of_string (type_text type) in
      let erased = erase-Has k "type" v o ne has in
      ground (
        arith,
        has,
        put-Has_other k "orderType" v t o ne' has,
        put-Has_other k "orderType" v t (j.erase "type" o) ne' erased,
      )

  pub rename_type-type :
      (type : OrderType) (o : J)
      → j.is_object o ≡ true
      → Has j "orderType" (j.of_string (type_text type)) (rename_type j type o)
        × (j.contains (rename_type j type o) "type" ≡ false)
  unfolding rename_type
  rename_type-type type o obj =
      let t = j.of_string (type_text type) in
      let obj' = laws.is_object-erase "type" o obj in
      ground (
        arith,
        obj,
        obj',
        put-Has "orderType" t o obj,
        put-Has "orderType" t (j.erase "type" o) obj',
        laws.contains-put "orderType" "type" t o obj,
        laws.contains-put "orderType" "type" t (j.erase "type" o) obj',
        laws.contains-erase "type" "type" o obj,
      )

-- Not one of the members that the conditions of an order are written to.
abbrev pub IsPlain : String → Type 0
IsPlain k =
    (str_eq "stopLossTriggerPrice" k ≡ false)
    × (str_eq "takeProfitTriggerPrice" k ≡ false)
    × (str_eq "stopLossLimitPrice" k ≡ false)
    × (str_eq "takeProfitLimitPrice" k ≡ false)

module _ {D J W : Type 0} ⦃d : Double D⦄ (j : Json D J) (c : Client D J W) where
  abbrev pub quantity_text : OrderRequest D → J
  quantity_text o = j.of_string (format_quantity_string c (format_quantity c o.quantity))

  abbrev pub price_text : D → J
  price_text price = j.of_string (format_price_string c price)

module _ {D J W : Type 0} ⦃d : Double D⦄ (j : Json D J) (laws : HasMembers D J ⦃j = j⦄)
    (c : Client D J W) where
  pub put_price-Has :
      (k key : String) (v o : J) (price : Option D)
      → str_eq key k ≡ false
      → Has j k v o
      → Has j k v (put_price j c key price o)
  unfolding put_price
  put_price-Has k key v o none ne has = has
  put_price-Has k key v o (some price) ne has =
      put-Has_other j laws k key v (j.of_string (format_price_string c price)) o ne has

  conditioned-Has :
      (k : String) (v o : J) (cond : ConditionalOrderParams D)
      → IsPlain k
      → Has j k v o
      → Has j k v (conditioned j c cond o)
  unfolding conditioned
  conditioned-Has k v o cond (a, b, e, f) has =
      put_price-Has k _ v _ cond.take_profit_limit_price f (
        put_price-Has k _ v _ cond.stop_loss_limit_price e (
          put_price-Has k _ v _ cond.take_profit_trigger_price b
            (put_price-Has k _ v o cond.stop_loss_trigger_price a has)))

  -- From the conditions up to the names that the exchange expects.
  pub middle-Has :
      (k : String) (v p : J) (o : OrderRequest D) (cond : ConditionalOrderParams D)
      → IsPlain k
      → str_eq "timeInForce" k ≡ false
      → str_eq "side" k ≡ false
      → str_eq "type" k ≡ false
      → Has j k v p
      → Has j k v
          (exchange_names j o.side o.type (conditional_tif j o.type cond (conditioned j c cond p)))
  middle-Has k v p o cond plain a b e has =
      exchange_names-Has j laws k v _ o.side o.type b e
        (conditional_tif-Has j laws k v _ o.type cond a (conditioned-Has k v p cond plain has))

  pub reformatted-Has :
      (k : String) (v p : J) (o : OrderRequest D) (adjusted : Option D)
      → str_eq "quantity" k ≡ false
      → str_eq "price" k ≡ false
      → Has j k v p
      → Has j k v (reformatted j c o adjusted p)
  unfolding reformatted
  reformatted-Has k v p o adjusted ne ne' has =
      let q = quantity_text j c o in
      let sized = put-Has_other j laws k "quantity" v q p ne has in
      let t = price_text j c o.price in
      ground (
        arith,
        has,
        sized,
        put-Has_other j laws k "price" v t p ne' has,
        put-Has_other j laws k "price" v t (j.put "quantity" q p) ne' sized,
      )
