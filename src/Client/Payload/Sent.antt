-- ===== src/Client/Payload/Sent.antt =====
-- What `send_order` of cpp_exec/exec_bridge.cpp sends: the members that the exchange reads.
use hl_cli.Prelude.{
  ◌≡◌, refl, true, false, ◌⊎◌, inl, inr, Option, none, some, String, arith, Bool-cases,
}
use hl_cli.Double.{Double, nought}
use hl_cli.Json.{Json, HasMembers}
use hl_cli.Data.{OrderRequest, OrderFlags, ConditionalOrderParams}
use hl_cli.Client.{Client}
use hl_cli.Client.Payload.{
  type_text, adjusted_price, add_strategy_flags, conditional_tif, exchange_names, rename_type,
  put_price, tagged, conditioned, reformatted, order_payload,
}
use hl_cli.Client.Payload.Members.{
  Has, put-Has, put-Has_other, middle-Has, quantity_text, price_text, reformatted-Has,
  rename_type-Has, rename_type-type, put_price-Has,
}

module _ {D : Type 0} where
  -- The price that is sent: the adjusted one, if there is one.
  abbrev pub chosen : OrderRequest D → Option D → D
  chosen o none = o.price
  chosen o (some price) = price

module _ {D J W : Type 0} ⦃d : Double D⦄ (j : Json D J) (c : Client D J W) where
  -- The members of the object `p`, if the price was adjusted as told.
  abbrev pub Sent : OrderRequest D → String → Option D → J → Type 0
  Sent o model_id adjusted p =
      Has j "clientOrderId" (j.of_string model_id) p
      × Has j "quantity" (quantity_text j c o) p
      × ((d.lt nought o.price ≡ false) ⊎ Has j "price" (price_text j c (chosen o adjusted)) p)
      × Has j "orderType" (j.of_string (type_text o.type)) p
      × (j.contains p "type" ≡ false)

module _ {D J W : Type 0} ⦃d : Double D⦄ (j : Json D J) (laws : HasMembers D J ⦃j = j⦄)
    (c : Client D J W) where
  reformatted-quantity :
      (p : J) (o : OrderRequest D) (adjusted : Option D)
      → Has j "quantity" (quantity_text j c o) p
      → Has j "quantity" (quantity_text j c o) (reformatted j c o adjusted p)
  unfolding reformatted
  reformatted-quantity p o adjusted has =
      let q = quantity_text j c o in
      let sized = put-Has j laws "quantity" q p has.0 in
      ground (
        arith,
        has,
        sized,
        put-Has_other j laws "quantity" "price" q (price_text j c o.price) (j.put "quantity" q p)
            refl sized,
      )

  reformatted-price :
      (p : J) (o : OrderRequest D) (adjusted : Option D)
      → Has j "price" (price_text j c (chosen o adjusted)) p
      → Has j "price" (price_text j c (chosen o adjusted)) (reformatted j c o adjusted p)
  unfolding reformatted
  reformatted-price p o (some a) has = ground (
    arith,
    has,
    put-Has_other j laws "price" "quantity" (price_text j c a) (quantity_text j c o) p refl has,
  )
  reformatted-price p o none has =
      let t = price_text j c o.price in
      let q = quantity_text j c o in
      let sized = put-Has_other j laws "price" "quantity" t q p refl has in
      ground (
        arith,
        has,
        sized,
        put-Has j laws "price" t p has.0,
        put-Has j laws "price" t (j.put "quantity" q p) sized.0,
      )

  flagged-is_object :
      (flags : OrderFlags) (o : J)
      → j.is_object o ≡ true
      → j.is_object (add_strategy_flags j flags o) ≡ true
  unfolding add_strategy_flags
  flagged-is_object flags o obj =
      let t = j.of_bool true in
      let obj' = laws.is_object-put "postOnly" t o obj in
      ground (
        arith,
        obj,
        obj',
        laws.is_object-put "reduceOnly" t o obj,
        laws.is_object-put "reduceOnly" t (j.put "postOnly" t o) obj',
      )

  module _ (o : OrderRequest D) (flags : OrderFlags) (model_id : String) (base : J)
      (obj : j.is_object base ≡ true) where
    abbrev flagged : J
    flagged = add_strategy_flags j flags (j.erase "clientOrderId" base)

    abbrev named : J
    named = j.put "clientOrderId" (j.of_string model_id) flagged

    named-Has : Has j "clientOrderId" (j.of_string model_id) named
    named-Has = put-Has j laws "clientOrderId" (j.of_string model_id) flagged (
        flagged-is_object flags (j.erase "clientOrderId" base)
          (laws.is_object-erase "clientOrderId" base obj))

    tagged-client : Has j "clientOrderId" (j.of_string model_id) (tagged j c o flags model_id base)
    unfolding tagged
    tagged-client =
        let v = j.of_string model_id in
        let q = quantity_text j c o in
        let sized = put-Has_other j laws "clientOrderId" "quantity" v q named refl named-Has in
        ground (
          arith,
          sized,
          put-Has_other j laws "clientOrderId" "price" v (price_text j c o.price)
              (j.put "quantity" q named) refl sized,
        )

    tagged-quantity : Has j "quantity" (quantity_text j c o) (tagged j c o flags model_id base)
    unfolding tagged
    tagged-quantity =
        let q = quantity_text j c o in
        let sized = put-Has j laws "quantity" q named named-Has.0 in
        ground (
          arith,
          sized,
          put-Has_other j laws "quantity" "price" q (price_text j c o.price)
              (j.put "quantity" q named) refl sized,
        )

    tagged-price :
        d.lt nought o.price ≡ true
        → Has j "price" (price_text j c o.price) (tagged j c o flags model_id base)
    unfolding tagged
    tagged-price priced =
        let q = quantity_text j c o in
        let sized = put-Has j laws "quantity" q named named-Has.0 in
        ground (
          arith,
          priced,
          put-Has j laws "price" (price_text j c o.price) (j.put "quantity" q named) sized.0,
        )

    priced-price :
        (adjusted : Option D)
        → d.lt nought o.price ≡ true
        → Has j "price"
            (price_text j c (chosen o adjusted))
            (put_price j c "price" adjusted (tagged j c o flags model_id base))
    unfolding put_price
    priced-price none priced = tagged-price priced
    priced-price (some a) priced =
        put-Has j laws "price" (price_text j c a) (tagged j c o flags model_id base) tagged-client.0

    -- The object that `send_order` sends, if `to_json` of the SDK gives an object: it carries the
    -- model's identifier, the quantity on the exchange's grid, for a price above 0 that price, or
    -- the one that a crossing post-only order is adjusted to, and the type under the name
    -- "orderType" alone.
    pub order_payload-Sent :
        (cond : ConditionalOrderParams D)
        → Sent j c o model_id
            (adjusted_price c o flags)
            (order_payload j c o flags cond model_id base)
    unfolding order_payload
    order_payload-Sent cond = build (adjusted_price c o flags)
      where
        names : Option D → J
        names adjusted = exchange_names j o.side o.type (
            conditional_tif j o.type cond (
              conditioned j c cond
                (put_price j c "price" adjusted (tagged j c o flags model_id base))))

        price :
            (adjusted : Option D)
            → (d.lt nought o.price ≡ true) ⊎ (d.lt nought o.price ≡ false)
            → (d.lt nought o.price ≡ false)
              ⊎ Has j "price"
                  (price_text j c (chosen o adjusted))
                  (rename_type j o.type (reformatted j c o adjusted (names adjusted)))
        price adjusted (inr unpriced) = inl unpriced
        price adjusted (inl priced) =
            let v = price_text j c (chosen o adjusted) in
            inr (
              rename_type-Has j laws "price" v _ o.type refl refl (
                reformatted-price _ o adjusted (
                  middle-Has j laws c "price" v _ o cond (refl, refl, refl, refl) refl refl refl
                    (priced-price adjusted priced))))

        build :
            (adjusted : Option D)
            → Sent j c o model_id adjusted
                (rename_type j o.type (reformatted j c o adjusted (names adjusted)))
        build adjusted =
            let client =
              middle-Has j laws c "clientOrderId" (j.of_string model_id) _ o cond
                (refl, refl, refl, refl) refl refl refl
                (put_price-Has j laws c "clientOrderId" "price" (j.of_string model_id) _ adjusted
                  refl tagged-client) in
            let client' =
              reformatted-Has j laws c "clientOrderId" (j.of_string model_id) _ o adjusted refl refl
                client in
            let quantity =
              middle-Has j laws c "quantity" (quantity_text j c o) _ o cond (refl, refl, refl, refl)
                refl refl refl
                (put_price-Has j laws c "quantity" "price" (quantity_text j c o) _ adjusted refl
                  tagged-quantity) in
            (
              rename_type-Has j laws "clientOrderId" (j.of_string model_id) _ o.type refl refl
                  client',
              rename_type-Has j laws "quantity" (quantity_text j c o) _ o.type refl refl
                  (reformatted-quantity _ o adjusted quantity),
              price adjusted (Bool-cases (d.lt nought o.price)),
              (rename_type-type j laws o.type _ client'.0).0,
              (rename_type-type j laws o.type _ client'.0).1,
            )
