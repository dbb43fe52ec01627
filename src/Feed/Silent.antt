-- ===== src/Feed/Silent.antt =====
-- `handle_message` of cpp_exec/redis_client.cpp: what becomes of a depth message.
use hl_cli.Prelude.{
  ◌≡◌, refl, ◌∙◌, Bool, true, false, not, if◌then◌else◌, ◌&&◌, Option, none, some, List, [], ◌∷◌,
  String, arith,
}
use hl_cli.Double.{Double}
use hl_cli.Json.{Json}
use hl_cli.Machine.{Outcome, ret, thrown, stuck, for_each, Returns}
use hl_cli.Levels.{price_and_quantity}
use hl_cli.Feed.{
  Bus, Side, Feed, is_short, put_price, on_bids, on_asks, apply_level, levels_of, apply_levels,
  publish_l1_data, apply_update, is_depth, handle_message,
}

module _ {D J : Type 0} ⦃d : Double D⦄ (j : Json D J) where
  abbrev is_some : {A : Type 0} → Option A → Bool
  is_some none = false
  is_some (some a) = true

  abbrev all_readable : List J → Bool
  all_readable [] = true
  all_readable (v ∷ l) = is_some (price_and_quantity j v) && all_readable l

  abbrev all_long : List J → Bool
  all_long [] = true
  all_long (v ∷ l) = not (is_short j v) && all_long l

  -- No level of the message is an array that is read past its end.
  abbrev pub is_long : J → Bool
  is_long v = all_long (levels_of j v "a") && all_long (levels_of j v "b")

  -- The price and the quantity of every level of the message can be read.
  abbrev pub is_readable : J → Bool
  is_readable v = all_readable (levels_of j v "a") && all_readable (levels_of j v "b")

module _ {D W : Type 0} where
  -- Nothing is published, and the mutex is as it was.
  abbrev Same : Feed D W → Feed D W → Type 0
  Same f t = (t.world ≡ f.world) × (t.locked ≡ f.locked)

  -- It returns if the test holds, and throws otherwise.
  abbrev Ends : Bool → Feed D W → Outcome (Feed D W) (Unit {0}) → Type 0
  Ends true f (ret _ t) = Same f t
  Ends false f (thrown e t) = Same f t
  Ends _ f _ = ⊥

  Ends-further :
      (b : Bool) (f t : Feed D W) (o : Outcome (Feed D W) (Unit {0}))
      → Same f t
      → Ends b t o
      → Ends b f o
  Ends-further true f t (ret a u) p q = (q.0 ∙ p.0, q.1 ∙ p.1)
  Ends-further true f t (thrown e u) p q = q
  Ends-further true f t stuck p q = q
  Ends-further false f t (thrown e u) p q = (q.0 ∙ p.0, q.1 ∙ p.1)
  Ends-further false f t (ret a u) p q = q
  Ends-further false f t stuck p q = q

  -- The thread blocks for ever if the test holds; otherwise it goes on with nothing published and
  -- the mutex free.
  abbrev pub Blocks : Bool → Feed D W → Outcome (Feed D W) (Unit {0}) → Type 0
  Blocks true f o = o ≡ stuck
  Blocks false f o = Returns (λ _ t. (t.world ≡ f.world) × (t.locked ≡ false)) o

  abbrev UpdateEnds : Bool → Feed D W → Outcome (Feed D W) (Unit {0}) → Type 0
  UpdateEnds true f o = o ≡ stuck
  UpdateEnds false f o =
      (e : String) × (t : Feed D W) × (o ≡ thrown e t) × (t.world ≡ f.world) × (t.locked ≡ false)

module _ {D J W : Type 0} ⦃d : Double D⦄ (j : Json D J) (bus : Bus W) where
  for_each-Ends :
      (put : (Side D → Side D) → Feed D W → Feed D W) (l : List J) (f : Feed D W)
      → all_long j l ≡ true
      → ((g : Side D → Side D) (t : Feed D W) → Same t (put g t))
      → Ends (all_readable j l) f (for_each l (apply_level j bus put) f)
  unfolding for_each apply_level
  for_each-Ends put [] f long same = (refl, refl)
  for_each-Ends put (v ∷ l) f long same =
      let rest : all_long j l ≡ true = ground arith in
      go (is_short j v) (price_and_quantity j v) (ground arith)
        (λ t. for_each-Ends put l t rest same)
    where
      go :
          (b : Bool) (o : Option (D × D))
          → b ≡ false
          → ((t : Feed D W) → Ends (all_readable j l) t (for_each l (apply_level j bus put) t))
          → Ends (is_some j o && all_readable j l) f (
              let first : Outcome (Feed D W) (Unit {0}) =
                if b
                then stuck
                else (elim o [ none ↦ thrown "stod" f | some x ↦ ret tt (put (put_price x) f) ]) in
              let r : Outcome (Feed D W) (Unit {0}) = elim first [
                | ret _ t ↦ for_each l (apply_level j bus put) t
                | thrown e t ↦ thrown e t
                | stuck ↦ stuck
              ] in
              r)
      go true o cut next = absurd (ground arith)
      go false none cut next = (refl, refl)
      go false (some x) cut next =
          Ends-further (all_readable j l) f (put (put_price x) f) _ (same (put_price x) f)
            (next (put (put_price x) f))

  apply_levels-Ends :
      (v : J) (f : Feed D W)
      → is_long j v ≡ true
      → Ends (is_readable j v) f (apply_levels j bus v f)
  unfolding apply_levels
  apply_levels-Ends v f long =
      go (all_readable j (levels_of j v "a"))
        (for_each (levels_of j v "a") (apply_level j bus on_asks) f)
        (for_each-Ends on_asks (levels_of j v "a") f (ground arith) (λ g t. (refl, refl)))
        (λ t. for_each-Ends on_bids (levels_of j v "b") t (ground arith) (λ g u. (refl, refl)))
    where
      go :
          (b : Bool) (o : Outcome (Feed D W) (Unit {0}))
          → Ends b f o
          → ((t : Feed D W)
              → Ends
                  (all_readable j (levels_of j v "b"))
                  t
                  (for_each (levels_of j v "b") (apply_level j bus on_bids) t))
          → Ends (b && all_readable j (levels_of j v "b")) f (
              let r : Outcome (Feed D W) (Unit {0}) = elim o [
                | ret _ t ↦ for_each (levels_of j v "b") (apply_level j bus on_bids) t
                | thrown e t ↦ thrown e t
                | stuck ↦ stuck
              ] in
              r)
      go true (ret _ t) p next = Ends-further (all_readable j (levels_of j v "b")) f t _ p (next t)
      go false (thrown e t) p next = p
      go true (thrown e t) p next = absurd p
      go true stuck p next = absurd p
      go false (ret _ t) p next = absurd p
      go false stuck p next = absurd p

  apply_update-Ends :
      (v : J) (f : Feed D W)
      → f.locked ≡ false
      → is_long j v ≡ true
      → UpdateEnds (is_readable j v) f (apply_update j bus v f)
  unfolding apply_update publish_l1_data
  apply_update-Ends v f free long =
      let f' = record f { locked = true } in
      go (is_readable j v) (apply_levels j bus v f') refl (apply_levels-Ends v f' long)
    where
      go :
          (b : Bool) (o : Outcome (Feed D W) (Unit {0}))
          → apply_levels j bus v (record f { locked = true }) ≡ o
          → Ends b (record f { locked = true }) o
          → UpdateEnds b f (apply_update j bus v f)
      go true (ret _ t) e same = ground (arith, e, same, free)
      go false (thrown message t) e same =
          (message, record t { locked = false }, ground (arith, e, free), same.0, refl)
      go true (thrown message t) e same = absurd same
      go true stuck e same = absurd same
      go false (ret _ t) e same = absurd same
      go false stuck e same = absurd same

  -- Of the depth messages in which no level is an array too short for its price or its quantity to
  -- be read (that is undefined behaviour): one whose prices and quantities can all be read blocks
  -- its thread for ever: the method `apply_update` holds the mutex of the book when it calls
  -- `publish_l1_data`, which locks it again. Any other is given up: the call returns with the mutex
  -- free, and nothing was published or stored on Redis.
  pub handle_message-Blocks :
      (payload : String) (v : J) (f : Feed D W)
      → f.locked ≡ false
      → j.parse payload ≡ some v
      → is_depth j v ≡ true
      → is_long j v ≡ true
      → Blocks (is_readable j v) f (handle_message j bus payload f)
  unfolding handle_message
  handle_message-Blocks payload v f free parsed depth long =
      go (is_readable j v) (apply_update-Ends v f free long)
    where
      go :
          (b : Bool)
          → UpdateEnds b f (apply_update j bus v f)
          → Blocks b f (handle_message j bus payload f)
      go true e = ground (arith, e, parsed, depth)
      go false (e, t, thrown_eq, same, unlocked) =
          ground (arith, thrown_eq, same, unlocked, parsed, depth)
