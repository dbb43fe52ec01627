-- ===== src/Client/Poll/Bounds.antt =====
-- `poll_order_status` of cpp_exec/exec_bridge.cpp: that it ends, and what it costs.
use hl_cli.Prelude.{
  ℕ, zero, suc, ◌+◌, ◌*◌, ◌≤◌, ◌≡◌, refl, ◌∙◌, Bool, true, false, String, if◌then◌else◌, arith,
}
use hl_cli.Double.{Double}
use hl_cli.Json.{Json, value_string}
use hl_cli.Host.{Host}
use hl_cli.Machine.{
  M, Outcome, ret, thrown, stuck, pure, try_catch, skip, Returns, Returns-bind, ◌>>=◌,
}
use hl_cli.Rate.{RestClass}
use hl_cli.Client.{Client, PollTask, trade_state, missing_order_ids}
use hl_cli.Client.OpenOrders.{signed, order_params}
use hl_cli.Client.Send.{or_throw}
use hl_cli.Client.Poll.{
  has_member, check_age, poll_query, poll_status, poll_error, poll_once, poll_loop,
  poll_order_status,
}
use hl_cli.Client.Poll.Costs.{
  Costs, Ends, bind-Costs, signed-Costs, or_throw-Costs, still_free, process_fill_response-Costs,
}

module _ {D J W : Type 0} ⦃d : Double D⦄ (j : Json D J) (h : Host W) where
  check_age-Costs :
      (reply : J) (checked : Bool) (c : Client D J W) → Costs 0 c (check_age j h reply checked c)
  unfolding check_age
  check_age-Costs reply checked c = ground arith

  poll_query-Costs :
      (t : PollTask D) (checked : Bool) (c : Client D J W) → Costs 8 c (poll_query j h t checked c)
  unfolding poll_query
  poll_query-Costs t checked c =
      bind-Costs 8 0
        (signed j h RestClass.order_query "GET" "/api/v1/order" "orderQuery"
          (order_params j h t.symbol t.order_id))
        (λ reply. or_throw j h (value_string j reply "status" "") >>= rest reply) c
        (signed-Costs j h RestClass.order_query "GET" "/api/v1/order" "orderQuery"
          (order_params j h t.symbol t.order_id) c)
        λ reply c1 _.
          bind-Costs 0 0 (or_throw j h (value_string j reply "status" "")) (rest reply) c1
            (or_throw-Costs j h (value_string j reply "status" "") c1)
            λ status c2 _.
              bind-Costs 0 0 (check_age j h reply checked) (λ a. pure (reply, status, a.0, a.1)) c2
                (check_age-Costs reply checked c2) (λ _ c3 _. (omega arith, refl))
    where
      rest : J → String → M (Client D J W) (J × String × Bool × Bool)
      rest reply status = check_age j h reply checked >>= λ a. pure (reply, status, a.0, a.1)

  poll_error-Ends :
      (t : PollTask D) (e : String) (c : Client D J W)
      → c.held missing_order_ids ≡ false
      → Returns (Ends 0 c) (poll_error j h t e c)
  unfolding poll_error
  poll_error-Ends t e c free = ground arith

  poll_status-Costs :
      (t : PollTask D) (reply : J) (status : String) (stop : Bool) (c : Client D J W)
      → c.held trade_state ≡ false
      → Costs 0 c (poll_status j h t reply status stop c)
  unfolding poll_status
  poll_status-Costs t reply status stop c free =
      ground (arith, process_fill_response-Costs j h reply t.original t.model_id c free)

  error-Ends :
      (t : PollTask D) (e : String) (checked : Bool) (n : ℕ) (c c1 : Client D J W)
      → c.held missing_order_ids ≡ false
      → c1.net.sent ≤ n + c.net.sent
      → c1.held ≡ c.held
      → Returns {A = Bool × Bool}
          (Ends n c)
          ((poll_error j h t e >>= λ done. pure (done, checked)) c1)
  error-Ends t e checked n c c1 free p q =
      ground (arith, p, q, poll_error-Ends t e c1 (still_free missing_order_ids c c1 free q))

  status-Ends :
      (t : PollTask D) (checked : Bool) (n : ℕ) (c c1 : Client D J W)
      (r : Outcome (Client D J W) Bool)
      → c.held missing_order_ids ≡ false
      → c1.held ≡ c.held
      → c1.net.sent ≤ n + c.net.sent
      → Costs 0 c1 r
      → Returns {A = Bool × Bool}
          (Ends n c)
          ((try_catch (λ _. r) (poll_error j h t) >>= λ done. pure (done, checked)) c1)
  status-Ends t checked n c c1 (ret a s) free same le (p, q) = (omega arith, q ∙ same)
  status-Ends t checked n c c1 (thrown e s) free same le (p, q) =
      error-Ends t e checked n c s free (omega arith) (q ∙ same)
  status-Ends t checked n c c1 stuck free same le p = absurd p

  poll_once-Ends :
      (t : PollTask D) (checked : Bool) (c : Client D J W)
      → c.held trade_state ≡ false
      → c.held missing_order_ids ≡ false
      → Returns (Ends 8 c) (poll_once j h t checked c)
  unfolding poll_once
  poll_once-Ends t checked c free free' =
      go (poll_query j h t checked c) (poll_query-Costs t checked c)
    where
      go :
          (r : Outcome (Client D J W) (J × String × Bool × Bool))
          → Costs 8 c r
          → Returns {A = Bool × Bool} (Ends 8 c) (elim r [
            | stuck ↦ stuck
            | thrown e c' ↦ (do done ← poll_error j h t e; pure (done, checked)) c'
            | ret (reply, status, stop, checked') c' ↦
                (do
                  done ← try_catch (poll_status j h t reply status stop) (poll_error j h t)
                  pure (done, checked'))
                  c'
          ])
      go stuck p = absurd p
      go (thrown e c1) p = error-Ends t e checked 8 c c1 free' p.0 p.1
      go (ret (reply, status, stop, checked') c1) (p, q) =
          status-Ends t checked' 8 c c1 (poll_status j h t reply status stop c1) free' q p
            (poll_status-Costs t reply status stop c1 (still_free trade_state c c1 free q))

  poll_loop-Ends :
      (left : ℕ) (t : PollTask D) (checked : Bool) (c : Client D J W)
      → c.held trade_state ≡ false
      → c.held missing_order_ids ≡ false
      → Returns (Ends (left * 8) c) (poll_loop j h left t checked c)
  unfolding poll_loop
  poll_loop-Ends zero t checked c free free' = (omega arith, refl)
  poll_loop-Ends (suc left) t checked c free free' =
      Returns-bind (Ends 8 c) (Ends (suc left * 8) c) (poll_once j h t checked)
        (λ a. elim a.0 [ true ↦ skip | false ↦ poll_loop j h left t a.1 ]) c
        (poll_once-Ends t checked c free free')
        λ (done, checked') c1 (p, q).
          let next =
            poll_loop-Ends left t checked' c1 (still_free trade_state c c1 free q)
              (still_free missing_order_ids c c1 free' q) in
          ground (arith, p, q, next)

  -- `poll_order_status`, called while the thread holds neither `trade_state_mutex_` nor
  -- `missing_order_ids_mutex_`, always returns, whatever the exchange replies: it throws no
  -- exception, waits for no mutex, and sends at most 24 requests, those for the server's time
  -- included. The mutexes are as before.
  pub poll_order_status_lem :
      (t : PollTask D) (c : Client D J W)
      → c.held trade_state ≡ false
      → c.held missing_order_ids ≡ false
      → Returns (Ends 24 c) (poll_order_status j h t c)
  unfolding poll_order_status
  poll_order_status_lem t c free free' =
      rw (Returns, free')
        (go (has_member t.order_id c.recently_missing_order_ids)
          (poll_loop-Ends 3 t false c free free'))
    where
      go :
          (missing : Bool)
          → Returns (Ends 24 c) (poll_loop j h 3 t false c)
          → Returns (Ends 24 c) ((if missing then skip else poll_loop j h 3 t false) c)
      go true p = (omega arith, refl)
      go false p = p
