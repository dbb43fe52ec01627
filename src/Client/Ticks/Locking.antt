-- ===== src/Client/Ticks/Locking.antt =====
-- `onTick` of cpp_exec/exec_bridge.cpp and its mutex: it holds `trade_state_mutex_` while it closes
-- positions, and locks it again.
use hl_cli.Prelude.{
  ℕ, zero, suc, ◌≡◌, refl, ◌∙◌, ap, Bool, true, false, not, Option, none, some, List, String,
  eq_iff, if◌then◌else◌, arith, length, eq_ℤ, pos,
}
use hl_cli.Double.{Double}
use hl_cli.Json.{Json}
use hl_cli.Host.{Host}
use hl_cli.Machine.{M, Outcome, ret, thrown, stuck, pure, ◌>>=◌, ◌>>◌, modify}
use hl_cli.Rate.{RestClass}
use hl_cli.Data.{OrderRequest, OrderFlags, ConditionalOrderParams, Position, no_conditions}
use hl_cli.Client.{Client, Lock, hold, within, trade_state}
use hl_cli.Client.OpenOrders.{signed, cancel_all_for_symbol}
use hl_cli.Client.Payload.{order_payload}
use hl_cli.Client.Send.{
  order_id_of, log_order_sent, predicted_breaker, after_order, send_order, send_limit, send_market,
}
use hl_cli.Client.Ticks.{
  get_elem?, set_elem, Reason, time_stop, stop_loss_hit, older, close_reason, close_position,
  closing_flags, closing_task, mark_closing, spawn, tick_position, tick_positions, on_tick,
}
use hl_cli.Client.Ticks.Due.{any_due, any_due-set_elem, due}

module _ {D J W : Type 0} where
  -- An outcome that is not a return; and one that, if it is a return, leaves the mutexes as they
  -- were.
  abbrev pub Fails : {A : Type 0} → Outcome (Client D J W) A → Type 0
  Fails (ret a c) = ⊥
  Fails _ = Unit

  abbrev Kept : {A : Type 0} → Client D J W → Outcome (Client D J W) A → Type 0
  Kept c (ret a c') = c'.held ≡ c.held
  Kept c (thrown e c') = Unit
  Kept c stuck = Unit

module _ {D J W : Type 0} ⦃d : Double D⦄ (j : Json D J) (h : Host W)
    (to_json : OrderRequest D → J) where
  bind-Kept :
      {A B : Type 0} (m : M (Client D J W) A) (k : A → M (Client D J W) B) (c : Client D J W)
      → Kept c (m c)
      → ((a : A) (c' : Client D J W) → Kept c' (k a c'))
      → Kept c ((m >>= k) c)
  bind-Kept {B} m k c q next = go (m c) q
    where
      back :
          (c' : Client D J W) (r : Outcome (Client D J W) B)
          → c'.held ≡ c.held
          → Kept c' r
          → Kept c r
      back c' (ret b c'') e p = p ∙ e
      back c' (thrown x c'') e p = tt
      back c' stuck e p = tt

      go :
          (o : Outcome (Client D J W) _)
          → Kept c o
          → Kept {A = B} c
              (elim o [ ret a c' ↦ k a c' | thrown e c' ↦ thrown e c' | stuck ↦ stuck ])
      go (ret a c') p = back c' (k a c') p (next a c')
      go (thrown e c') p = tt
      go stuck p = tt

  cancel_all-Kept :
      (symbol : String) (c : Client D J W) → Kept c (cancel_all_for_symbol j h symbol c)
  unfolding cancel_all_for_symbol
  cancel_all-Kept symbol c = ground arith

  predicted_breaker-Kept :
      (symbol : String) (c : Client D J W) → Kept c (predicted_breaker j h symbol c)
  unfolding predicted_breaker
  predicted_breaker-Kept symbol c = ground (arith, cancel_all-Kept symbol c)

  log_order_sent-Kept :
      (o : OrderRequest D) (model_id id : String) (c : Client D J W)
      → Kept c (log_order_sent j h o model_id id c)
  unfolding log_order_sent
  log_order_sent-Kept o model_id id c = ground arith

  after_order-Kept :
      (o : OrderRequest D) (model_id id : String) (c : Client D J W)
      → Kept c (after_order j h o model_id id c)
  unfolding after_order
  after_order-Kept o model_id id c = ground (
    arith,
    bind-Kept (log_order_sent j h o model_id id) (λ _. predicted_breaker j h o.symbol) c
        (log_order_sent-Kept o model_id id c) (λ _. predicted_breaker-Kept o.symbol),
  )

  signed-Kept :
      (cls : RestClass) (method endpoint instruction : String) (params : J) (c : Client D J W)
      → Kept c (signed j h cls method endpoint instruction params c)
  unfolding signed
  signed-Kept cls method endpoint instruction params c = ground arith

  order_id_of-Kept : (reply : J) (c : Client D J W) → Kept c (order_id_of j h reply c)
  unfolding order_id_of
  order_id_of-Kept reply c = ground arith

  send_order-Kept :
      (o : OrderRequest D) (flags : OrderFlags) (cond : ConditionalOrderParams D)
      (model_id : String) (c : Client D J W)
      → Kept c (send_order j h to_json o flags cond model_id c)
  unfolding send_order
  send_order-Kept o flags cond model_id c = by_client c.has_client _ (
      bind-Kept
        (signed j h RestClass.trade "POST" "/api/v1/order" "orderExecute"
          (order_payload j c o flags cond model_id (to_json o)))
        (λ reply. order_id_of j h reply >>= λ id. after_order j h o model_id id >> pure id) c
        (signed-Kept RestClass.trade "POST" "/api/v1/order" "orderExecute"
          (order_payload j c o flags cond model_id (to_json o)) c)
        λ reply c1.
          bind-Kept (order_id_of j h reply) (λ id. after_order j h o model_id id >> pure id) c1
            (order_id_of-Kept reply c1)
            λ id c2.
              bind-Kept (after_order j h o model_id id) (λ _. pure id) c2
                (after_order-Kept o model_id id c2) (λ _ c3. refl))
    where
      by_client :
          (b : Bool) (r : Outcome (Client D J W) String)
          → Kept c r
          → Kept c (if not b then ret "" c else r)
      by_client true r p = p
      by_client false r p = refl

  bind-Fails :
      {A B : Type 0} (m : M (Client D J W) A) (k : A → M (Client D J W) B) (c : Client D J W)
      → Kept c (m c)
      → ((a : A) (c' : Client D J W) → c'.held ≡ c.held → Fails (k a c'))
      → Fails ((m >>= k) c)
  bind-Fails {B} m k c q next = go (m c) q
    where
      go :
          (o : Outcome (Client D J W) _)
          → Kept c o
          → Fails {A = B} (elim o [ ret a c' ↦ k a c' | thrown e c' ↦ thrown e c' | stuck ↦ stuck ])
      go (ret a c') p = next a c' p
      go (thrown e c') p = tt
      go stuck p = tt

  send_market-Kept :
      (symbol : String) (quantity : D) (is_buy : Bool) (flags : OrderFlags)
      (cond : ConditionalOrderParams D) (model_id : String) (c : Client D J W)
      → Kept c (send_market j h to_json symbol quantity is_buy flags cond model_id c)
  unfolding send_market send_limit
  send_market-Kept symbol quantity is_buy flags cond model_id c =
      send_order-Kept _ flags cond model_id c

  -- After a call that leaves the mutexes alone, the thread that holds `trade_state_mutex_` waits
  -- for it.
  relock-Fails :
      {A B : Type 0} (m : M (Client D J W) A) (body : A → M (Client D J W) (Unit {0}))
      (k : A → M (Client D J W) B) (c : Client D J W)
      → Kept c (m c)
      → c.held trade_state ≡ true
      → Fails ((m >>= λ a. within trade_state (body a) >> k a) c)
  relock-Fails m body k c q busy =
      bind-Fails m (λ a. within trade_state (body a) >> k a) c q
        λ a c1 same.
          let busy1 : c1.held trade_state ≡ true =
            ap (λ (f : Lock → Bool). f trade_state) same ∙ busy in
          ground (arith, busy1)

  close_position-Fails :
      (p : Position D) (reason : Reason) (c : Client D J W)
      → c.held trade_state ≡ true
      → Fails (close_position j h to_json p reason c)
  unfolding close_position
  close_position-Fails p reason c busy =
      relock-Fails
        (send_market j h to_json c.trading_symbol p.size (not (eq_ℤ p.side (pos 1))) closing_flags
          no_conditions p.model_id)
        (λ order_id. modify (mark_closing p order_id reason))
        (λ order_id. spawn (closing_task c p order_id)) c
        (send_market-Kept c.trading_symbol p.size (not (eq_ℤ p.side (pos 1))) closing_flags
          no_conditions p.model_id c)
        busy

  tick_positions-Fails :
      (i : ℕ) (c : Client D J W)
      → c.held trade_state ≡ true
      → any_due (due c) i c.open_positions ≡ true
      → Fails (tick_positions j h to_json i c)
  unfolding tick_positions tick_position close_reason
  tick_positions-Fails zero c busy some_due = ground arith
  tick_positions-Fails (suc i) c busy some_due =
      step (get_elem? i c.open_positions) refl
        (λ ps. tick_positions-Fails i (record c { open_positions = ps }) busy)
    where
      step :
          (q : Option (Position D))
          → get_elem? i c.open_positions ≡ q
          → ((ps : List (Position D))
              → any_due (due c) i ps ≡ true
              → Fails (tick_positions j h to_json i (record c { open_positions = ps })))
          → Fails (tick_positions j h to_json (suc i) c)
      step none e next = ground (arith, e, some_due, next c.open_positions)
      step (some p) e next =
          let ps = set_elem i (older p) c.open_positions in
          let c' = record c { open_positions = ps } in
          ground (
            arith,
            e,
            some_due,
            any_due-set_elem (due c) i i (older p) c.open_positions (omega arith),
            next ps,
            close_position-Fails (older p) time_stop c' busy,
            close_position-Fails (older p) stop_loss_hit c' busy,
          )

  -- A tick of the traded symbol at which some position is due never returns: sending the closing
  -- order throws, or the thread waits for `trade_state_mutex_`, which it holds itself.
  pub on_tick-due :
      (symbol : String) (c : Client D J W)
      → symbol ≡ c.trading_symbol
      → any_due (due c) (length c.open_positions) c.open_positions ≡ true
      → Fails (on_tick j h to_json symbol c)
  unfolding on_tick close_reason
  on_tick-due symbol c own some_due = ground (
    arith,
    eq_iff symbol c.trading_symbol,
    tick_positions-Fails (length c.open_positions) (record c { held = hold trade_state c.held })
        refl some_due,
  )
