-- ===== src/Client/Bootstrap/Cached.antt =====
-- `bootstrapOrderCache` of cpp_exec/exec_bridge.cpp: what the cache holds afterwards.
use hl_cli.Prelude.{
  ◌≡◌, refl, ◌∙◌, ap, Bool, true, false, not, ◌&&◌, ◌||◌, ◌⊎◌, inl, inr, Option, none, some, List,
  [], ◌∷◌, String, str_eq, eq_iff, is_empty_text, if◌then◌else◌, Assoc, find, insert, find-insert,
  arith, Bool-cases,
}
use hl_cli.Double.{Double}
use hl_cli.Json.{Json, value_string}
use hl_cli.Host.{Host}
use hl_cli.Machine.{M, Outcome, ret, thrown, stuck, modify, try_catch, Returns, ◌>>=◌}
use hl_cli.Rate.{RestClass}
use hl_cli.Data.{Order, OrderStatus}
use hl_cli.Client.{Client, Lock, hold, within, order_cache_lock}
use hl_cli.Client.Send.{or_throw, order_id_of}
use hl_cli.Client.Send.Breaker.{Asked, signed-Asked}
use hl_cli.Client.OpenOrders.{signed}
use hl_cli.Client.Bootstrap.{
  Sdk, is_live, read_order, cache_order, cache_live, bootstrap_named, bootstrap_order,
  bootstrap_orders, fill_cache, bootstrap_order_cache, drop_cache,
}

module _ {D : Type 0} where
  -- An entry of the cache: a live order, under its own identifier, which is not empty.
  abbrev is_sound : String → Option (Order D) → Bool
  is_sound k none = true
  is_sound k (some o) = str_eq o.id k && is_live o.status && not (is_empty_text k)

  is_sound-insert :
      (k id : String) (o : Order D) (m : Assoc (Order D))
      → o.id ≡ id
      → is_live o.status ≡ true
      → is_empty_text id ≡ false
      → is_sound k (find k m) ≡ true
      → is_sound k (find k (insert id o m)) ≡ true
  is_sound-insert k id o m e live named sound =
      ground (arith, e, live, named, sound, find-insert id k o m, eq_iff id k, eq_iff o.id k)

module _ {D J W : Type 0} where
  -- A call that ends: if without an exception, with the property; the mutexes are as before.
  abbrev Ends :
      {A : Type 0} → (A → Client D J W → Type 0) → Client D J W → Outcome (Client D J W) A → Type 0
  Ends P c (ret a c') = P a c' × (c'.held ≡ c.held)
  Ends P c (thrown e c') = c'.held ≡ c.held
  Ends P c stuck = ⊥

  bind-Ends :
      {A B : Type 0} (P : A → Client D J W → Type 0) (Q : B → Client D J W → Type 0)
      (m : M (Client D J W) A) (k : A → M (Client D J W) B) (c : Client D J W)
      → Ends P c (m c)
      → ((a : A) (c' : Client D J W) → P a c' → Ends Q c' (k a c'))
      → Ends Q c ((m >>= k) c)
  bind-Ends {B} P Q m k c first next = go (m c) first
    where
      back :
          (c1 : Client D J W) (r : Outcome (Client D J W) B)
          → c1.held ≡ c.held
          → Ends Q c1 r
          → Ends Q c r
      back c1 (ret b c2) e (q, e') = (q, e' ∙ e)
      back c1 (thrown x c2) e e' = e' ∙ e
      back c1 stuck e q = q

      go :
          (o : Outcome (Client D J W) _)
          → Ends P c o
          → Ends Q c (elim o [ ret a s ↦ k a s | thrown e s ↦ thrown e s | stuck ↦ stuck ])
      go (ret a s) (p, e) = back s (k a s) e (next a s p)
      go (thrown e s) p = p
      go stuck p = absurd p

  abbrev Sound : String → {A : Type 0} → A → Client D J W → Type 0
  Sound k a c = is_sound k (find k c.order_cache) ≡ true

module _ {D J W : Type 0} ⦃d : Double D⦄ (j : Json D J) (h : Host W) (sdk : Sdk) where
  abbrev Read : String → OrderStatus → Client D J W → Order D → Client D J W → Type 0
  Read id s c o c' = (o.id ≡ id) × (o.status ≡ s) × (c'.order_cache ≡ c.order_cache)

  read_order-Read :
      (v : J) (id : String) (s : OrderStatus) (c : Client D J W)
      → Ends (Read id s c) c (read_order j h sdk v id s c)
  unfolding read_order
  read_order-Read v id s c = ground arith

  module _ (k : String) where
    cache_live-Sound :
        (v : J) (id : String) (s : Option OrderStatus) (c : Client D J W)
        → is_empty_text id ≡ false
        → is_sound k (find k c.order_cache) ≡ true
        → Ends (Sound k) c (cache_live j h sdk v id s c)
    unfolding cache_live
    cache_live-Sound v id none c named sound = (sound, refl)
    cache_live-Sound v id (some s) c named sound = elim (Bool-cases (is_live s)) [
      | inr closed ↦ rw closed (sound, refl)
      | inl live ↦ rw live (
          bind-Ends (Read id s c) (Sound k) (read_order j h sdk v id s)
            (λ o. modify (cache_order j h sdk id o)) c (read_order-Read v id s c)
            λ o c1 (e, e', same). (
              is_sound-insert k id o c1.order_cache e (ap is_live e' ∙ live) named
                  (ap (λ m. is_sound k (find k m)) same ∙ sound),
              refl,
            ))
    ]

    bootstrap_named-Sound :
        (v : J) (id : String) (c : Client D J W)
        → is_sound k (find k c.order_cache) ≡ true
        → Ends (Sound k) c (bootstrap_named j h sdk v id c)
    unfolding bootstrap_named
    bootstrap_named-Sound v id c sound = elim (Bool-cases (is_empty_text id)) [
      | inl nameless ↦ rw nameless (sound, refl)
      | inr named ↦ rw named (status (value_string j v "status" "") named)
    ]
      where
        status :
            (s : Option String)
            → is_empty_text id ≡ false
            → Ends
                (Sound k)
                c
                ((or_throw j h s >>= λ status. cache_live j h sdk v id (sdk.status_of status)) c)
        status none named = refl
        status (some s) named = cache_live-Sound v id (sdk.status_of s) c named sound

    order_id_of-Sound :
        (v : J) (c : Client D J W)
        → is_sound k (find k c.order_cache) ≡ true
        → Ends (Sound k) c (order_id_of j h v c)
    unfolding order_id_of
    order_id_of-Sound v c sound = ground (arith, sound)

    bootstrap_orders-Sound :
        (vs : List J) (c : Client D J W)
        → is_sound k (find k c.order_cache) ≡ true
        → Ends (Sound k) c (bootstrap_orders j h sdk vs c)
    unfolding bootstrap_orders bootstrap_order
    bootstrap_orders-Sound [] c sound = (sound, refl)
    bootstrap_orders-Sound (v ∷ vs) c sound =
        bind-Ends (Sound k) (Sound k) (bootstrap_order j h sdk v) (λ _. bootstrap_orders j h sdk vs)
          c
          (bind-Ends (Sound k) (Sound k) (order_id_of j h v) (bootstrap_named j h sdk v) c
            (order_id_of-Sound v c sound) (bootstrap_named-Sound v))
          (λ _ c1 s. bootstrap_orders-Sound vs c1 s)

    abbrev Filled : {A : Type 0} → A → Client D J W → Type 0
    Filled a c = (is_sound k (find k c.order_cache) ≡ true) × (c.ws_orders_initialized ≡ true)

    fill_cache-Filled : (reply : J) (c : Client D J W) → Ends Filled c (fill_cache j h sdk reply c)
    unfolding fill_cache find
    fill_cache-Filled reply c =
        let members = if j.is_array reply then j.elements reply else [] in
        bind-Ends (Sound k) Filled (bootstrap_orders j h sdk members)
          (λ _. modify λ (c : Client D J W). record c { ws_orders_initialized = true })
          (record c { order_cache = [] })
          (bootstrap_orders-Sound members (record c { order_cache = [] }) refl)
          (λ _ c1 s. ((s, refl), refl))

    -- What `bootstrapOrderCache` leaves behind.
    abbrev pub Bootstrapped : Client D J W → (Unit {0}) → Client D J W → Type 0
    Bootstrapped c _ c' =
        ((c'.ws_orders_initialized ≡ false) ⊎ (is_sound k (find k c'.order_cache) ≡ true))
        × ((c'.ws_orders_initialized ≡ true)
            ⊎ (c'.order_cache ≡ [])
            ⊎ (c'.order_cache ≡ c.order_cache))
        × (c'.held ≡ c.held)

    -- The block under the mutex, and the handler of exceptions.
    fill-Bootstrapped :
        (reply : J) (c c1 : Client D J W)
        → c.held order_cache_lock ≡ false
        → c1.held ≡ c.held
        → Returns (Bootstrapped c) (
            try_catch
              (within order_cache_lock (fill_cache j h sdk reply))
              (λ e. drop_cache j h sdk)
              c1)
    fill-Bootstrapped reply c c1 free same =
        let free1 : c1.held order_cache_lock ≡ false =
          ap (λ (f : Lock → Bool). f order_cache_lock) same ∙ free in
        ground (
          arith,
          same,
          free1,
          fill_cache-Filled reply (record c1 { held = hold order_cache_lock c1.held }),
        )

    drop-Bootstrapped :
        (c c1 : Client D J W)
        → c.held order_cache_lock ≡ false
        → c1.held ≡ c.held
        → Returns (Bootstrapped c) (drop_cache j h sdk c1)
    drop-Bootstrapped c c1 free same =
        let free1 : c1.held order_cache_lock ≡ false =
          ap (λ (f : Lock → Bool). f order_cache_lock) same ∙ free in
        ground (arith, same, free1)

    -- `bootstrapOrderCache`, in a thread that does not hold `order_cache_mutex_`, returns, whatever
    -- the exchange replies. If it marks the cache as initialised, every order in it is open (NEW or
    -- PARTIALLY_FILLED) and stands under its own identifier, which is not empty; otherwise the cache
    -- is empty, or as before.
    pub bootstrap_order_cache_lem :
        (c : Client D J W)
        → c.held order_cache_lock ≡ false
        → Returns (Bootstrapped c) (bootstrap_order_cache j h sdk c)
    unfolding bootstrap_order_cache
    bootstrap_order_cache_lem c free =
        let params = j.put "symbol" (j.of_string c.trading_symbol) j.null in
        by_connection (not c.has_client || not (h.is_connected c.net.world)) _ (
          go (signed j h RestClass.order_query "GET" "/api/v1/orders" "orderQueryAll" params c) (
            signed-Asked j h RestClass.order_query "GET" "/api/v1/orders" "orderQueryAll" params c))
      where
        by_connection :
            (b : Bool) (r : Outcome (Client D J W) (Unit {0}))
            → Returns (Bootstrapped c) r
            → Returns
                (Bootstrapped c)
                (if b then ret tt (record c { ws_orders_initialized = false }) else r)
        by_connection true r p = (inl refl, inr (inr refl), refl)
        by_connection false r p = p

        go :
            (r : Outcome (Client D J W) J)
            → Asked j h c r
            → Returns (Bootstrapped c) (
                try_catch
                  (λ (s : Client D J W). elim r [
                    | ret reply s' ↦ within order_cache_lock (fill_cache j h sdk reply) s'
                    | thrown e s' ↦ thrown e s'
                    | stuck ↦ stuck
                  ])
                  (λ e. drop_cache j h sdk)
                  c)
        go (ret reply s) q = fill-Bootstrapped reply c s free (ap (λ (x : Client D J W). x.held) q)
        go (thrown e s) q = drop-Bootstrapped c s free (ap (λ (x : Client D J W). x.held) q)
        go stuck q = absurd q
