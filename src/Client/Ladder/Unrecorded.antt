-- ===== src/Client/Ladder/Unrecorded.antt =====
-- The ladder of cpp_exec/exec_bridge.cpp and its mutex: `positions_to_json` locks
-- `trade_state_mutex_`, which its callers hold.
use hl_cli.Prelude.{
  ℕ, zero, suc, ◌+◌, ◌*◌, ◌≡◌, refl, ◌∙◌, true, false, List, [], String, arith, if◌then◌else◌,
}
use hl_cli.Double.{Double, nought, of_ℕ}
use hl_cli.Json.{Json}
use hl_cli.Host.{Host}
use hl_cli.Machine.{M, Outcome, ret, thrown, stuck, pure, try_catch, ◌>>=◌}
use hl_cli.Data.{MlSignalPayload}
use hl_cli.Client.{Client}
use hl_cli.Client.OpenOrders.{signed}
use hl_cli.Client.Sizes.{format_quantity, format_price_string, format_quantity_string}
use hl_cli.Client.Positions.{positions_to_json}
use hl_cli.Client.Ladder.{
  Bbo, Levels, placed_id, place_order, ladder_level, ladder_levels, record_stop, attempt_stop_loss,
  persist, ladder_attempts, attempt_ladder, stop_json, stop_price, level_price, order_json, is_long,
  num_levels, fallback_safety_tick_increment,
}

module _ {D J W : Type 0} where
  abbrev Kept : Client D J W → Client D J W → Type 0
  Kept c c' = (c'.active_positions ≡ c.active_positions) × (c'.positions_file ≡ c.positions_file)

  -- A call that ends, ends with the positions and their file as before.
  abbrev pub Unrecorded : {A : Type 0} → Client D J W → Outcome (Client D J W) A → Type 0
  Unrecorded c (ret a c') = Kept c c'
  Unrecorded c (thrown e c') = Kept c c'
  Unrecorded c stuck = Unit

  bind-Unrecorded :
      {A B : Type 0} (m : M (Client D J W) A) (k : A → M (Client D J W) B) (c : Client D J W)
      → Unrecorded c (m c)
      → ((a : A) (c' : Client D J W) → Unrecorded c' (k a c'))
      → Unrecorded c ((m >>= k) c)
  bind-Unrecorded {B} m k c first next = go (m c) first
    where
      back :
          (c1 : Client D J W) (r : Outcome (Client D J W) B)
          → Kept c c1
          → Unrecorded c1 r
          → Unrecorded c r
      back c1 (ret b c2) (p, q) (p', q') = (p' ∙ p, q' ∙ q)
      back c1 (thrown e c2) (p, q) (p', q') = (p' ∙ p, q' ∙ q)
      back c1 stuck p q = tt

      go :
          (o : Outcome (Client D J W) _)
          → Unrecorded c o
          → Unrecorded {A = B} c
              (elim o [ ret a s ↦ k a s | thrown e s ↦ thrown e s | stuck ↦ stuck ])
      go (ret a s) p = back s (k a s) p (next a s)
      go (thrown e s) p = p
      go stuck p = tt

  catch-Unrecorded :
      {A : Type 0} (m : M (Client D J W) A) (a : A) (c : Client D J W)
      → Unrecorded c (m c)
      → Unrecorded c (try_catch m (λ e. pure a) c)
  catch-Unrecorded {A} m a c p = go (m c) p
    where
      go :
          (o : Outcome (Client D J W) A)
          → Unrecorded c o
          → Unrecorded {A = A} c
              (elim o [ ret b s ↦ ret b s | thrown e s ↦ ret a s | stuck ↦ stuck ])
      go (ret b s) q = q
      go (thrown e s) q = q
      go stuck q = tt

module _ {D J W : Type 0} ⦃d : Double D⦄ (j : Json D J) (h : Host W) where
  place_order-Unrecorded : (params : J) (c : Client D J W) → Unrecorded c (place_order j h params c)
  unfolding place_order placed_id signed
  place_order-Unrecorded params c = ground arith

  record_stop-Unrecorded :
      (model_id id : String) (c : Client D J W) → Unrecorded c (record_stop j h model_id id c)
  unfolding record_stop positions_to_json
  record_stop-Unrecorded model_id id c = ground arith

  attempt_stop_loss-Unrecorded :
      (p : MlSignalPayload D) (bbo : Bbo D) (c : Client D J W)
      → Unrecorded c (attempt_stop_loss j h p bbo c)
  unfolding attempt_stop_loss
  attempt_stop_loss-Unrecorded p bbo c =
      let params = stop_json j h c p (format_price_string c (stop_price j h c p bbo)) in
      ground (
        arith,
        catch-Unrecorded (place_order j h params >>= record_stop j h p.model_id) tt c (
            bind-Unrecorded (place_order j h params) (record_stop j h p.model_id) c
              (place_order-Unrecorded params c) (record_stop-Unrecorded p.model_id)),
      )

  ladder_level-Unrecorded :
      (p : MlSignalPayload D) (bbo : Bbo D) (qty : D) (ticks : ℕ) (levels : Levels D)
      (c : Client D J W)
      → Unrecorded c (ladder_level j h p bbo qty ticks levels c)
  unfolding ladder_level
  ladder_level-Unrecorded p bbo qty ticks levels c =
      let price = level_price j h c p bbo ticks in
      let params =
        order_json j h c.trading_symbol (if is_long j h p then "Bid" else "Ask")
          (format_quantity_string c qty) (format_price_string c price) in
      ground (arith, place_order-Unrecorded params c)

  ladder_levels-Unrecorded :
      (left lvl : ℕ) (p : MlSignalPayload D) (bbo : Bbo D) (qty : D) (buffer : ℕ)
      (levels : Levels D) (c : Client D J W)
      → Unrecorded c (ladder_levels j h left lvl p bbo qty buffer levels c)
  unfolding ladder_levels
  ladder_levels-Unrecorded zero lvl p bbo qty buffer levels c = (refl, refl)
  ladder_levels-Unrecorded (suc left) lvl p bbo qty buffer levels c =
      bind-Unrecorded (ladder_level j h p bbo qty (lvl + buffer) levels)
        (ladder_levels j h left (suc lvl) p bbo qty buffer) c
        (ladder_level-Unrecorded p bbo qty (lvl + buffer) levels c)
        (ladder_levels-Unrecorded left (suc lvl) p bbo qty buffer)

  persist-stuck :
      (p : MlSignalPayload D) (bbo : Bbo D) (levels : Levels D) (c : Client D J W)
      → persist j h p bbo levels c ≡ stuck
  unfolding persist positions_to_json
  persist-stuck p bbo levels c = ground arith

  ladder_attempts-Unrecorded :
      (left attempt : ℕ) (p : MlSignalPayload D) (bbo : Bbo D) (qty : D) (placed : List String)
      (c : Client D J W)
      → Unrecorded c (ladder_attempts j h left attempt p bbo qty placed c)
  unfolding ladder_attempts
  ladder_attempts-Unrecorded zero attempt p bbo qty placed c = (refl, refl)
  ladder_attempts-Unrecorded (suc left) attempt p bbo qty placed c =
      let none_yet : Levels D = record {
        placed_ids = placed;
        any_success = false;
        last_level_price = nought;
      } in
      let buffer = attempt * fallback_safety_tick_increment in
      bind-Unrecorded (ladder_levels j h num_levels 1 p bbo qty buffer none_yet)
        (λ levels. elim levels.any_success [
          | true ↦ persist j h p bbo levels
          | false ↦ ladder_attempts j h left (suc attempt) p bbo qty levels.placed_ids
        ])
        c (ladder_levels-Unrecorded num_levels 1 p bbo qty buffer none_yet c)
        λ levels c1. ground (
          arith,
          persist-stuck p bbo levels c1,
          ladder_attempts-Unrecorded left (suc attempt) p bbo qty levels.placed_ids c1,
        )

  -- If `attempt_ladder_entry_order_with_fallback` returns or throws, the active positions and their
  -- file are as before, whatever orders the exchange accepted.
  pub attempt_ladder-Unrecorded :
      (p : MlSignalPayload D) (bbo : Bbo D) (c : Client D J W)
      → Unrecorded c (attempt_ladder j h p bbo c)
  unfolding attempt_ladder
  attempt_ladder-Unrecorded p bbo c = ground (
    arith,
    ladder_attempts-Unrecorded 3 0 p bbo
        (format_quantity c (d.div p.order_quantity_config (of_ℕ num_levels))) [] c,
  )
