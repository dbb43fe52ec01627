-- ===== src/Client/OpenOrders/Sweep.antt =====
-- The sweeper of cpp_exec/exec_bridge.cpp: which orders a round of `sweeperThread` drops.
use hl_cli.Prelude.{
  ℕ, ◌≡◌, refl, ◌∙◌, ap, Bool, true, false, Option, none, some, List, [], ◌∷◌, arith, if◌then◌else◌,
  String, str_eq, eq_iff, find, erase, find-erase, Assoc,
}
use hl_cli.Json.{Json}
use hl_cli.Host.{Host}
use hl_cli.Machine.{for_each, Returns, Returns-bind}
use hl_cli.Data.{RestingOrder}
use hl_cli.Client.{Client, Lock, open_orders_lock}
use hl_cli.Client.OpenOrders.{cancel_order, is_stale, select, sweep_order, sweep}
use hl_cli.Client.OpenOrders.Keys.{IsKeyed}

module _ {D : Type 0} where
  abbrev listed : String → List (RestingOrder D) → Bool
  listed k [] = false
  listed k (o ∷ os) = let rest = listed k os in if str_eq o.order_id k then true else rest

  abbrev passes : (RestingOrder D → Bool) → Option (RestingOrder D) → Bool
  passes p none = false
  passes p (some o) = p o

  listed-select :
      (p : RestingOrder D → Bool) (k : String) (m : Assoc (RestingOrder D))
      → IsKeyed m
      → listed k (select p m) ≡ passes p (find k m)
  unfolding select find
  listed-select p k [] w = refl
  listed-select p k ((i, o) ∷ m) w =
      ground (arith, listed-select p k m w.2, eq_iff i k, eq_iff o.order_id k, w.0, w.1)

module _ {D J W : Type 0} (j : Json D J) (h : Host W) where
  -- The entry `k` after the orders `os` are dropped.
  abbrev Dropped : List (RestingOrder D) → String → Client D J W → Client D J W → Type 0
  Dropped os k c c' =
      (find k c'.open_orders ≡ (if listed k os then none else find k c.open_orders))
      × (c'.held ≡ c.held)

  abbrev Erased : RestingOrder D → Client D J W → Client D J W → Type 0
  Erased o c c' = (c'.open_orders ≡ erase o.order_id c.open_orders) × (c'.held ≡ c.held)

  sweep_order-Erased :
      (o : RestingOrder D) (c : Client D J W)
      → c.held open_orders_lock ≡ false
      → Returns (λ _. Erased o c) (sweep_order j h o c)
  unfolding sweep_order cancel_order
  sweep_order-Erased o c free = ground arith

  for_each-Dropped :
      (os : List (RestingOrder D)) (k : String) (c : Client D J W)
      → c.held open_orders_lock ≡ false
      → Returns (λ _. Dropped os k c) (for_each os (sweep_order j h) c)
  unfolding for_each
  for_each-Dropped [] k c free = (refl, refl)
  for_each-Dropped (o ∷ os) k c free =
      Returns-bind (λ _. Erased o c) (λ _. Dropped (o ∷ os) k c) (sweep_order j h o)
        (λ _. for_each os (sweep_order j h)) c (sweep_order-Erased o c free)
        λ _ c1 q.
          let free1 : c1.held open_orders_lock ≡ false =
            ap (λ (f : Lock → Bool). f open_orders_lock) q.1 ∙ free in
          ground (arith, q, for_each-Dropped os k c1 free1, find-erase o.order_id k c.open_orders)

  abbrev keep_fresh : ℕ → Option (RestingOrder D) → Option (RestingOrder D)
  keep_fresh now none = none
  keep_fresh now (some o) = if is_stale now o then none else some o

  abbrev pub Swept : String → Client D J W → Client D J W → Type 0
  Swept k c c' =
      (find k c'.open_orders ≡ keep_fresh (h.steady_ns c.net.world).0 (find k c.open_orders))
      × (c'.held ≡ c.held)

  -- A round of the sweeper, in a thread that does not hold `openOrdersMutex_`, over a map in which
  -- each order stands once, under its identifier: it returns, and then the map has lost exactly the
  -- orders that were older than 30 seconds at its start, whatever the exchange replied to the
  -- requests that cancel them.
  pub sweep_lem :
      (k : String) (c : Client D J W)
      → IsKeyed c.open_orders
      → c.held open_orders_lock ≡ false
      → Returns (λ _. Swept k c) (sweep j h c)
  unfolding sweep
  sweep_lem k c keyed free =
      let (now, w) = h.steady_ns c.net.world in
      let os = select (is_stale now) c.open_orders in
      let c1 = record c { net = record c.net { world = w } } in
      ground (
        arith,
        free,
        listed-select (is_stale now) k c.open_orders keyed,
        for_each-Dropped os k c1 free,
      )
