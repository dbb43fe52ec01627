-- ===== src/Client/Poll/Costs.antt =====
-- `process_fill_response` of cpp_exec/exec_bridge.cpp: it sends no request and leaves the mutexes as
-- they were.
use hl_cli.Prelude.{
  ℕ, ◌+◌, ◌≤◌, ◌≡◌, refl, ◌∙◌, ap, Bool, false, Option, none, some, List, [], ◌∷◌, String, arith,
}
use hl_cli.Double.{Double, nought}
use hl_cli.Json.{Json, value_string}
use hl_cli.Host.{Host}
use hl_cli.Machine.{M, Outcome, ret, thrown, stuck, ◌>>=◌, ◌>>◌}
use hl_cli.Rate.{RestClass}
use hl_cli.Rest.Retry.{execute-Sent}
use hl_cli.Data.{OrderRequest}
use hl_cli.Client.{Client, Lock, within, trade_state}
use hl_cli.Client.Events.{known_trade_id}
use hl_cli.Client.OpenOrders.{signed}
use hl_cli.Client.Send.{or_throw}
use hl_cli.Client.Fills.{
  fills_of, totals, fill_order_id, log_part, log_nonzero, log_parts, conclude, settle_filled,
  take_fills, process_fill_response,
}

module _ {D J W : Type 0} where
  -- The call ends, having sent at most `n` requests, and leaves the mutexes as they were.
  abbrev pub Costs : {A : Type 0} → ℕ → Client D J W → Outcome (Client D J W) A → Type 0
  Costs n c (ret a c') = (c'.net.sent ≤ n + c.net.sent) × (c'.held ≡ c.held)
  Costs n c (thrown e c') = (c'.net.sent ≤ n + c.net.sent) × (c'.held ≡ c.held)
  Costs n c stuck = ⊥

  -- A call that ends without an exception, at the cost `n`.
  abbrev pub Ends : {A : Type 0} → ℕ → Client D J W → A → Client D J W → Type 0
  Ends n c _ c' = (c'.net.sent ≤ n + c.net.sent) × (c'.held ≡ c.held)

  Costs-trans :
      {A : Type 0} (m n : ℕ) (c c1 : Client D J W) (r : Outcome (Client D J W) A)
      → c1.net.sent ≤ m + c.net.sent
      → c1.held ≡ c.held
      → Costs n c1 r
      → Costs (m + n) c r
  Costs-trans m n c c1 (ret a c2) le e (p, q) = (omega arith, q ∙ e)
  Costs-trans m n c c1 (thrown x c2) le e (p, q) = (omega arith, q ∙ e)
  Costs-trans m n c c1 stuck le e p = p

  Costs-widen :
      {A : Type 0} (m n : ℕ) (c : Client D J W) (r : Outcome (Client D J W) A)
      → m ≤ n
      → Costs m c r
      → Costs n c r
  Costs-widen m n c (ret a c2) le (p, q) = (omega arith, q)
  Costs-widen m n c (thrown x c2) le (p, q) = (omega arith, q)
  Costs-widen m n c stuck le p = p

  pub still_free :
      (l : Lock) (c c1 : Client D J W) → c.held l ≡ false → c1.held ≡ c.held → c1.held l ≡ false
  still_free l c c1 free same = ap (λ (f : Lock → Bool). f l) same ∙ free

  pub bind-Costs :
      {A B : Type 0} (m n : ℕ) (f : M (Client D J W) A) (k : A → M (Client D J W) B)
      (c : Client D J W)
      → Costs m c (f c)
      → ((a : A) (c1 : Client D J W) → c1.held ≡ c.held → Costs n c1 (k a c1))
      → Costs (m + n) c ((f >>= k) c)
  bind-Costs {B} m n f k c first next = go (f c) first
    where
      go :
          (o : Outcome (Client D J W) _)
          → Costs m c o
          → Costs {A = B}
              (m + n)
              c
              (elim o [ ret a s ↦ k a s | thrown e s ↦ thrown e s | stuck ↦ stuck ])
      go (ret a s) p = Costs-trans m n c s (k a s) p.0 p.1 (next a s p.1)
      go (thrown e s) p = (omega (arith, p.0), p.1)
      go stuck p = absurd p

module _ {D J W : Type 0} (j : Json D J) (h : Host W) where
  pub signed-Costs :
      (cls : RestClass) (method endpoint instruction : String) (params : J) (c : Client D J W)
      → Costs 8 c (signed j h cls method endpoint instruction params c)
  unfolding signed
  signed-Costs cls method endpoint instruction params c =
      let (extra, e, lo, hi, spent, all) =
        execute-Sent j h c.api_key c.base64_private_key method endpoint instruction params cls
          c.net in
      ground (arith, hi, spent)

module _ {D J W : Type 0} ⦃d : Double D⦄ (j : Json D J) (h : Host W) where
  fill_order_id-Costs : (reply : J) (c : Client D J W) → Costs 0 c (fill_order_id j h reply c)
  unfolding fill_order_id
  fill_order_id-Costs reply c = ground arith

  log_part-Costs :
      (o : OrderRequest D) (model_id trade_id order_id : String) (fill : J) (c : Client D J W)
      → Costs 0 c (log_part j h o model_id trade_id order_id fill c)
  unfolding log_part
  log_part-Costs o model_id trade_id order_id fill c = ground arith

  log_nonzero-Costs :
      (o : OrderRequest D) (model_id trade_id order_id : String) (fill : J) (c : Client D J W)
      → Costs 0 c (log_nonzero j h o model_id trade_id order_id fill c)
  unfolding log_nonzero
  log_nonzero-Costs o model_id trade_id order_id fill c =
      ground (arith, log_part-Costs o model_id trade_id order_id fill c)

  log_parts-Costs :
      (o : OrderRequest D) (model_id trade_id order_id : String) (fills : List J) (c : Client D J W)
      → Costs 0 c (log_parts j h o model_id trade_id order_id fills c)
  unfolding log_parts
  log_parts-Costs o model_id trade_id order_id [] c = (omega arith, refl)
  log_parts-Costs o model_id trade_id order_id (fill ∷ fills) c =
      bind-Costs 0 0 (log_nonzero j h o model_id trade_id order_id fill)
        (λ _. log_parts j h o model_id trade_id order_id fills) c
        (log_nonzero-Costs o model_id trade_id order_id fill c)
        (λ _ c1 _. log_parts-Costs o model_id trade_id order_id fills c1)

  known-Costs :
      (model_id : String) (c : Client D J W)
      → c.held trade_state ≡ false
      → Costs 0 c (within trade_state (known_trade_id h model_id) c)
  unfolding known_trade_id
  known-Costs model_id c free = ground arith

  pub or_throw-Costs : (s : Option String) (c : Client D J W) → Costs 0 c (or_throw j h s c)
  or_throw-Costs none c = (omega arith, refl)
  or_throw-Costs (some s) c = (omega arith, refl)

  conclude-Costs :
      (o : OrderRequest D) (model_id trade_id order_id : String) (reply : J) (sums : D × D)
      (status : String) (c : Client D J W)
      → Costs 0 c (conclude j h o model_id trade_id order_id reply sums status c)
  unfolding conclude
  conclude-Costs o model_id trade_id order_id reply sums status c = ground arith

  settle_filled-Costs :
      (model_id : String) (sums : D × D) (c : Client D J W)
      → c.held trade_state ≡ false
      → Costs 0 c (settle_filled j h model_id sums c)
  unfolding settle_filled
  settle_filled-Costs model_id sums c free = ground arith

  finish-Costs :
      (reply : J) (o : OrderRequest D) (model_id trade_id order_id status : String) (sums : D × D)
      (c : Client D J W)
      → c.held trade_state ≡ false
      → Costs 0 c (
          (conclude j h o model_id trade_id order_id reply sums status
              >> settle_filled j h model_id sums)
            c)
  finish-Costs reply o model_id trade_id order_id status sums c free =
      bind-Costs 0 0 (conclude j h o model_id trade_id order_id reply sums status)
        (λ _. settle_filled j h model_id sums) c
        (conclude-Costs o model_id trade_id order_id reply sums status c)
        (λ _ c1 e. settle_filled-Costs model_id sums c1 (still_free trade_state c c1 free e))

  take_fills-Costs :
      (reply : J) (o : OrderRequest D) (model_id trade_id order_id : String) (c : Client D J W)
      → c.held trade_state ≡ false
      → Costs 0 c (take_fills j h reply o model_id trade_id order_id c)
  unfolding take_fills
  take_fills-Costs reply o model_id trade_id order_id c free =
      let sums = totals j h (fills_of j h reply) nought nought in
      let finish = λ (status : String).
        conclude j h o model_id trade_id order_id reply sums status
        >> settle_filled j h model_id sums in
      bind-Costs 0 0 (log_parts j h o model_id trade_id order_id (fills_of j h reply))
        (λ _. or_throw j h (value_string j reply "status" "") >>= finish) c
        (log_parts-Costs o model_id trade_id order_id (fills_of j h reply) c)
        λ _ c1 e1.
          bind-Costs 0 0 (or_throw j h (value_string j reply "status" "")) finish c1
            (or_throw-Costs (value_string j reply "status" "") c1)
            λ status c2 e2.
              finish-Costs reply o model_id trade_id order_id status sums c2
                (still_free trade_state c c2 free (e2 ∙ e1))

  pub process_fill_response-Costs :
      (reply : J) (o : OrderRequest D) (model_id : String) (c : Client D J W)
      → c.held trade_state ≡ false
      → Costs 0 c (process_fill_response j h reply o model_id c)
  unfolding process_fill_response
  process_fill_response-Costs reply o model_id c free =
      bind-Costs 0 0 (within trade_state (known_trade_id h model_id))
        (λ trade_id. fill_order_id j h reply >>= take_fills j h reply o model_id trade_id) c
        (known-Costs model_id c free)
        λ trade_id c1 e1.
          bind-Costs 0 0 (fill_order_id j h reply) (take_fills j h reply o model_id trade_id) c1
            (fill_order_id-Costs reply c1)
            λ order_id c2 e2.
              take_fills-Costs reply o model_id trade_id order_id c2
                (still_free trade_state c c2 free (e2 ∙ e1))
