-- ===== src/Client/Updates/Locking.antt =====
-- `processSdkOrderUpdate` of cpp_exec/exec_bridge.cpp and its mutexes. The handler holds
-- `openOrdersMutex_` while it calls `enforceOpenOrderLimit`, which locks it again.
use hl_cli.Prelude.{
  ◌≡◌, refl, ◌∙◌, Bool, true, false, ◌⊎◌, inl, inr, none, arith, str_eq, eq_iff, is_empty_text,
  find, erase, find-erase, Bool-cases, sym, ap,
}
use hl_cli.Double.{Double}
use hl_cli.Json.{Json}
use hl_cli.Host.{Host}
use hl_cli.Machine.{M, Outcome, ret, thrown, stuck, Returns, ◌>>=◌, ◌>>◌}
use hl_cli.Data.{Order, OrderStatus, new, partially_filled, filled, canceled, rejected, unhandled}
use hl_cli.Client.{Client, Lock, hold, within, open_orders_lock, trade_state}
use hl_cli.Client.OpenOrders.{enforce_open_order_limit}
use hl_cli.Client.OpenOrders.Bounds.{enforce-stuck}
use hl_cli.Client.Updates.{
  update_new, log_fill, fill_position, record_fill, track_order, update_fill, update_end, dispatch,
  process_sdk_order_update,
}

module _ {D J W : Type 0} ⦃d : Double D⦄ (j : Json D J) (h : Host W) where
  -- A part of the handler that does not throw: it returns with the same mutexes and the same traded
  -- symbol, or is stuck.
  abbrev Quiet : {A : Type 0} → Client D J W → Outcome (Client D J W) A → Type 0
  Quiet c (ret a c') = (c'.held ≡ c.held) × (c'.trading_symbol ≡ c.trading_symbol)
  Quiet c (thrown e c') = ⊥
  Quiet c stuck = Unit

  log_fill-Quiet : (o : Order D) (c : Client D J W) → Quiet c (log_fill j h o c)
  unfolding log_fill
  log_fill-Quiet o c = ground arith

  fill_position-Quiet : (o : Order D) (c : Client D J W) → Quiet c (fill_position j h o c)
  unfolding fill_position
  fill_position-Quiet o c = ground arith

  track_order-Quiet : (o : Order D) (c : Client D J W) → Quiet c (track_order j h o c)
  unfolding track_order
  track_order-Quiet o c = ground arith

  bind-stuck :
      {A B : Type 0} (m : M (Client D J W) A) (k : A → M (Client D J W) B) (c : Client D J W)
      → Quiet c (m c)
      → ((a : A) (c' : Client D J W)
          → c'.held ≡ c.held
          → c'.trading_symbol ≡ c.trading_symbol
          → k a c' ≡ stuck)
      → (m >>= k) c ≡ stuck
  bind-stuck m k c q next = go (m c) q
    where
      go :
          (o : Outcome (Client D J W) _)
          → Quiet c o
          → elim o [ ret a c' ↦ k a c' | thrown e c' ↦ thrown e c' | stuck ↦ stuck ] ≡ stuck
      go (ret a c') p = next a c' p.0 p.1
      go (thrown e c') p = absurd p
      go stuck p = refl

  within-Quiet :
      (l : Lock) (m : M (Client D J W) (Unit {0})) (c : Client D J W)
      → ((c' : Client D J W) → Quiet c' (m c'))
      → Quiet c (within l m c)
  within-Quiet l m c q = ground (arith, q (record c { held = hold l c.held }))

  Quiet-trans :
      {B : Type 0} (c c' : Client D J W) (o : Outcome (Client D J W) B)
      → c'.held ≡ c.held
      → c'.trading_symbol ≡ c.trading_symbol
      → Quiet c' o
      → Quiet c o
  Quiet-trans c c' (ret b c'') p q r = (r.0 ∙ p, r.1 ∙ q)
  Quiet-trans c c' (thrown e c'') p q r = r
  Quiet-trans c c' stuck p q r = tt

  bind-Quiet :
      {A B : Type 0} (m : M (Client D J W) A) (k : A → M (Client D J W) B) (c : Client D J W)
      → Quiet c (m c)
      → ((a : A) (c' : Client D J W) → Quiet c' (k a c'))
      → Quiet c ((m >>= k) c)
  bind-Quiet {B} m k c q next = go (m c) q
    where
      go :
          (o : Outcome (Client D J W) _)
          → Quiet c o
          → Quiet {A = B} c
              (elim o [ ret a c' ↦ k a c' | thrown e c' ↦ thrown e c' | stuck ↦ stuck ])
      go (ret a c') p = Quiet-trans c c' (k a c') p.0 p.1 (next a c')
      go (thrown e c') p = p
      go stuck p = tt

  record_fill-Quiet : (o : Order D) (c : Client D J W) → Quiet c (record_fill j h o c)
  unfolding record_fill
  record_fill-Quiet o c = elim (Bool-cases (is_empty_text o.client_order_id)) [
    | inl nameless ↦ rw nameless (refl, refl)
    | inr model ↦ rw model (
        bind-Quiet (log_fill j h o) (λ _. within trade_state (fill_position j h o)) c
          (log_fill-Quiet o c)
          (λ _ c'. within-Quiet trade_state (fill_position j h o) c' (fill_position-Quiet o)))
  ]

  module _ (o : Order D) (c : Client D J W) (own : o.symbol ≡ c.trading_symbol)
      (named : str_eq o.symbol "" ≡ false) where
    enforce-last :
        (c' : Client D J W)
        → c'.held open_orders_lock ≡ true
        → c'.trading_symbol ≡ c.trading_symbol
        → enforce_open_order_limit j h o.symbol c' ≡ stuck
    enforce-last c' busy same = enforce-stuck j h o.symbol c' busy (own ∙ sym same) named

    update_new-stuck : c.held open_orders_lock ≡ true → update_new j h o c ≡ stuck
    unfolding update_new
    update_new-stuck busy = rw (enforce-last c busy refl, ◌>>=◌)

    update_fill-stuck : c.held open_orders_lock ≡ true → update_fill j h o c ≡ stuck
    unfolding update_fill
    update_fill-stuck busy =
        bind-stuck (record_fill j h o)
          (λ _. track_order j h o >> enforce_open_order_limit j h o.symbol) c
          (record_fill-Quiet o c)
          λ _ c' held same.
            bind-stuck (track_order j h o) (λ _. enforce_open_order_limit j h o.symbol) c'
              (track_order-Quiet o c')
              λ _ c'' held' same'.
                enforce-last c''
                  (ap (λ (f : Lock → Bool). f open_orders_lock) (held' ∙ held) ∙ busy)
                  (same' ∙ same)

  -- An update of the traded symbol with the status NEW, PARTIALLY_FILLED or FILLED.
  abbrev pub OpensOrder : OrderStatus → Type 0
  OpensOrder new = Unit
  OpensOrder partially_filled = Unit
  OpensOrder filled = Unit
  OpensOrder _ = ⊥

  dispatch-stuck :
      (status : OrderStatus) (o : Order D) (c : Client D J W)
      → OpensOrder status
      → o.symbol ≡ c.trading_symbol
      → str_eq o.symbol "" ≡ false
      → c.held open_orders_lock ≡ true
      → dispatch j h status o c ≡ stuck
  dispatch-stuck new o c s own named busy = update_new-stuck o c own named busy
  dispatch-stuck partially_filled o c s own named busy = update_fill-stuck o c own named busy
  dispatch-stuck filled o c s own named busy = update_fill-stuck o c own named busy
  dispatch-stuck canceled o c s own named busy = absurd s
  dispatch-stuck rejected o c s own named busy = absurd s
  dispatch-stuck unhandled o c s own named busy = absurd s

  -- Whatever the state, `processSdkOrderUpdate` never returns from an update of the traded symbol
  -- with an identifier and the status NEW, PARTIALLY_FILLED or FILLED: its thread waits for a mutex
  -- that it holds itself.
  pub process-stuck :
      (o : Order D) (c : Client D J W)
      → OpensOrder o.status
      → o.symbol ≡ c.trading_symbol
      → str_eq o.symbol "" ≡ false
      → str_eq o.id "" ≡ false
      → process_sdk_order_update j h o c ≡ stuck
  unfolding process_sdk_order_update
  process-stuck o c opens own named has_id =
      let c' : Client D J W = record c { held = hold open_orders_lock c.held } in
      ground
        (arith, eq_iff o.symbol c.trading_symbol, dispatch-stuck o.status o c' opens own named refl)

  -- An update that reports the end of an order.
  abbrev pub EndsOrder : OrderStatus → Type 0
  EndsOrder canceled = Unit
  EndsOrder rejected = Unit
  EndsOrder _ = ⊥

  -- What the end of the order `o` leaves behind.
  abbrev pub Ended : Order D → Client D J W → Client D J W → Type 0
  Ended o c c' =
      (c'.open_orders ≡ erase o.id c.open_orders)
      × (find o.id c'.open_orders ≡ none)
      × (c'.active_positions ≡ c.active_positions)
      × (c'.held ≡ c.held)
      × ((str_eq o.client_order_id "" ≡ false) ⊎ (c'.trade_event_log ≡ c.trade_event_log))

  dispatch-Ended :
      (status : OrderStatus) (o : Order D) (c : Client D J W)
      → EndsOrder status
      → c.held trade_state ≡ false
      → Returns (λ _. Ended o c) (dispatch j h status o c)
  unfolding update_end
  dispatch-Ended canceled o c e free =
      ground (arith, find-erase o.id o.id c.open_orders, eq_iff o.id o.id)
  dispatch-Ended rejected o c e free =
      ground (arith, find-erase o.id o.id c.open_orders, eq_iff o.id o.id)
  dispatch-Ended _ o c e free = absurd e

  -- An update of the traded symbol with the status CANCELED or REJECTED, handled while the thread
  -- holds neither `openOrdersMutex_` nor `trade_state_mutex_`, returns; then the order is not in the
  -- map any more, the other orders and the positions are as before, and every mutex is free again.
  pub process-Ended :
      (o : Order D) (c : Client D J W)
      → EndsOrder o.status
      → o.symbol ≡ c.trading_symbol
      → str_eq o.id "" ≡ false
      → c.held open_orders_lock ≡ false
      → c.held trade_state ≡ false
      → Returns (λ _. Ended o c) (process_sdk_order_update j h o c)
  unfolding process_sdk_order_update
  process-Ended o c ends own has_id free free' =
      let c' : Client D J W = record c { held = hold open_orders_lock c.held } in
      ground (arith, eq_iff o.symbol c.trading_symbol, dispatch-Ended o.status o c' ends free')
