-- ===== src/Client/OrderSocket/Armed.antt =====
-- The order WebSocket of cpp_exec/exec_bridge.cpp: in which order the handlers and the threads that
-- fill the cache may run, and that a new authentication always leads to a running thread.
use hl_cli.Prelude.{eq_refl, ℕ, suc, ◌<◌, ◌≡◌, refl, Bool, true, false, Option, some, String, arith}
use hl_cli.Double.{Double}
use hl_cli.Json.{Json}
use hl_cli.Host.{Host}
use hl_cli.Machine.{ret, modify, Returns, Returns-bind}
use hl_cli.Client.{Client, order_cache_lock}
use hl_cli.Client.Bootstrap.{Sdk, bootstrap_order_cache}
use hl_cli.Client.Bootstrap.Cached.{Bootstrapped, bootstrap_order_cache_lem}
use hl_cli.Client.OrderSocket.{on_open, order_ws_error_handler, on_message, bootstrap_thread}

-- The client, and how many threads that fill the cache have been started and have not ended.
pub record System (D J W : Type 0) : Type 0 where
  pub client : Client D J W
  pub pending : ℕ

module _ {D J W : Type 0} ⦃d : Double D⦄ (j : Json D J) (h : Host W) (sdk : Sdk)
    (subscribe : String → W → Option (Bool × W)) where
  abbrev more : Bool → ℕ → ℕ
  more true n = suc n
  more false n = n

  -- The SDK calls a handler, a thread runs to its end, or another part of the program acts, which
  -- leaves `bootstrap_in_progress` alone. A thread that fills the cache runs as one step here.
  pub data Step (s : System D J W) : System D J W → Type 0 where
    opened :
        {c : Client D J W}
        → on_open s.client ≡ ret tt c
        → Step s (record { client = c; pending = s.pending })
    failed_or_closed :
        {c : Client D J W}
        → order_ws_error_handler s.client ≡ ret tt c
        → Step s (record { client = c; pending = s.pending })
    received :
        (message : String) {c : Client D J W} {started : Bool}
        → on_message j subscribe message s.client ≡ ret started c
        → Step s (record { client = c; pending = more started s.pending })
    filled :
        {n : ℕ} {c : Client D J W}
        → s.pending ≡ suc n
        → bootstrap_thread j h sdk s.client ≡ ret tt c
        → Step s (record { client = c; pending = n })
    elsewhere :
        {c : Client D J W}
        → c.bootstrap_in_progress ≡ s.client.bootstrap_in_progress
        → Step s (record { client = c; pending = s.pending })

  pub data Reach (c : Client D J W) : System D J W → Type 0 where
    here : Reach c (record { client = c; pending = 0 })
    next : {s t : System D J W} → Reach c s → Step s t → Reach c t

  abbrev IsArmed : System D J W → Type 0
  IsArmed s = s.client.bootstrap_in_progress ≡ true → 0 < s.pending

  Step-IsArmed : {s t : System D J W} → Step s t → IsArmed s → IsArmed t
  unfolding on_open order_ws_error_handler on_message bootstrap_thread
  Step-IsArmed (opened e) a = λ p. ground (arith, a)
  Step-IsArmed (failed_or_closed e) a = λ p. ground arith
  Step-IsArmed (received message e) a = λ p. ground (arith, a)
  Step-IsArmed (filled n e) a = λ p. ground arith
  Step-IsArmed (elsewhere e) a = λ p. a (ground arith)

  Reach-IsArmed :
      {c : Client D J W} {s : System D J W}
      → c.bootstrap_in_progress ≡ false
      → Reach c s
      → IsArmed s
  Reach-IsArmed idle here = λ p. cc
  Reach-IsArmed idle (next r st) = Step-IsArmed st (Reach-IsArmed idle r)

  -- A message that says that the order WebSocket is authenticated, and whose subscription succeeds.
  abbrev pub Authenticates : String → Client D J W → Type 0
  Authenticates message c =
      (v : J) × (w : W) × (j.parse message ≡ some v)
      × (j.contains v "type" ≡ true)
      × (j.get_string (j.field v "type") ≡ some "authenticated")
      × (subscribe c.trading_symbol c.net.world ≡ some (true, w))

  -- However the handlers, the threads and the rest of the program have interleaved since a start
  -- without a running bootstrap: if no thread that fills the cache runs, an authentication whose
  -- subscription succeeds starts one, so that the flag `bootstrap_in_progress_` never blocks it;
  -- and that thread returns, and leaves the flag false.
  pub on_message-Restarts :
      {c : Client D J W} {s : System D J W} (message : String)
      → c.bootstrap_in_progress ≡ false
      → Reach c s
      → s.pending ≡ 0
      → s.client.held order_cache_lock ≡ false
      → Authenticates message s.client
      → (c' : Client D J W) × (on_message j subscribe message s.client ≡ ret true c')
        × Returns (λ _ c''. c''.bootstrap_in_progress ≡ false) (bootstrap_thread j h sdk c')
  unfolding on_message bootstrap_thread
  on_message-Restarts {c} {s} message idle r none_runs free (v, w, parsed, typed, named, done) =
      let calm : s.client.bootstrap_in_progress ≡ false =
        flag_false s.client.bootstrap_in_progress refl (Reach-IsArmed idle r) none_runs in
      let c' : Client D J W = record s.client {
        ws_orders_subscribed = true;
        bootstrap_in_progress = true;
        net = record s.client.net { world = w };
      } in
      (
        c',
        ground (arith, eq_refl "authenticated", parsed, typed, named, done, calm),
        Returns-bind (Bootstrapped j h sdk "" c') (λ _ c''. c''.bootstrap_in_progress ≡ false)
            (bootstrap_order_cache j h sdk)
            (λ _. modify λ (c1 : Client D J W). record c1 { bootstrap_in_progress = false }) c'
            (bootstrap_order_cache_lem j h sdk "" c' free) (λ _ c1 _. refl),
      )
    where
      flag_false :
          (b : Bool)
          → s.client.bootstrap_in_progress ≡ b
          → (s.client.bootstrap_in_progress ≡ true → 0 < s.pending)
          → s.pending ≡ 0
          → s.client.bootstrap_in_progress ≡ false
      flag_false true e a z = let p : 0 < s.pending = a e in absurd (omega arith)
      flag_false false e a z = e
