-- ===== src/Client/Ticks/Due.antt =====
-- `onTick` of cpp_exec/exec_bridge.cpp: what a tick does if no position is due, and what happens if
-- one is.
use mathlib.Core.List.{map}
use hl_cli.Prelude.{
  ℕ, zero, suc, ◌≤◌, ◌<◌, ◌≡◌, refl, ap, Bool, true, false, ◌||◌, Option, none, some, List, [], ◌∷◌,
  String, eq_iff, arith, length,
}
use hl_cli.Double.{Double}
use hl_cli.Json.{Json}
use hl_cli.Host.{Host}
use hl_cli.Machine.{ret}
use hl_cli.Data.{OrderRequest, Position}
use hl_cli.Client.{Client, hold, trade_state}
use hl_cli.Client.Ticks.{
  get_elem?, set_elem, Reason, keep, older, close_reason, tick_position, tick_positions, on_tick,
}

abbrev is_due : Reason → Bool
is_due keep = false
is_due _ = true

module _ {D : Type 0} where
  -- Whether one of the first `n` positions passes a test.
  abbrev pub any_due : (Position D → Bool) → ℕ → List (Position D) → Bool
  any_due due zero ps = false
  any_due due (suc i) ps =
      let rest = any_due due i ps in elim (get_elem? i ps) [ none ↦ rest | some p ↦ due p || rest ]

  get_elem?-set_elem :
      (k i : ℕ) (p : Position D) (ps : List (Position D))
      → k < i
      → get_elem? k (set_elem i p ps) ≡ get_elem? k ps
  unfolding get_elem? set_elem
  get_elem?-set_elem k i p [] lt = refl
  get_elem?-set_elem k zero p (x ∷ ps) lt = ground arith
  get_elem?-set_elem zero (suc i) p (x ∷ ps) lt = refl
  get_elem?-set_elem (suc k) (suc i) p (x ∷ ps) lt = get_elem?-set_elem k i p ps (omega arith)

  pub any_due-set_elem :
      (due : Position D → Bool) (n i : ℕ) (p : Position D) (ps : List (Position D))
      → n ≤ i
      → any_due due n (set_elem i p ps) ≡ any_due due n ps
  any_due-set_elem due zero i p ps le = refl
  any_due-set_elem due (suc n) i p ps le = ground (
    arith,
    get_elem?-set_elem n i p ps (omega arith),
    any_due-set_elem due n i p ps (omega arith),
  )

module _ {D : Type 0} where
  abbrev age : ℕ → List (Position D) → List (Position D)
  age zero ps = ps
  age (suc n) [] = []
  age (suc n) (p ∷ ps) = older p ∷ age n ps

  age-set_elem :
      (i : ℕ) (p : Position D) (ps : List (Position D))
      → get_elem? i ps ≡ some p
      → age i (set_elem i (older p) ps) ≡ age (suc i) ps
  unfolding get_elem? set_elem
  age-set_elem i p [] e = cc
  age-set_elem zero p (x ∷ ps) e = ground arith
  age-set_elem (suc i) p (x ∷ ps) e = ap (λ l. older x ∷ l) (age-set_elem i p ps e)

  age-none : (i : ℕ) (ps : List (Position D)) → get_elem? i ps ≡ none → age i ps ≡ age (suc i) ps
  unfolding get_elem?
  age-none zero [] e = refl
  age-none (suc i) [] e = refl
  age-none zero (x ∷ ps) e = cc
  age-none (suc i) (x ∷ ps) e = ap (λ l. older x ∷ l) (age-none i ps e)

  age-length : (ps : List (Position D)) → age (length ps) ps ≡ map older ps
  age-length [] = refl
  age-length (p ∷ ps) = ap (λ l. older p ∷ l) (age-length ps)

module _ {D J W : Type 0} ⦃d : Double D⦄ where
  -- Whether a position is to be closed at this tick.
  abbrev pub due : Client D J W → Position D → Bool
  due c p = is_due (close_reason c (older p))

module _ {D J W : Type 0} ⦃d : Double D⦄ (j : Json D J) (h : Host W)
    (to_json : OrderRequest D → J) where
  tick_positions-quiet :
      (i : ℕ) (c : Client D J W)
      → any_due (due c) i c.open_positions ≡ false
      → tick_positions j h to_json i c
        ≡ ret tt (record c { open_positions = age i c.open_positions })
  unfolding tick_positions tick_position close_reason
  tick_positions-quiet zero c calm = refl
  tick_positions-quiet (suc i) c calm =
      step (get_elem? i c.open_positions) refl
        (λ ps. tick_positions-quiet i (record c { open_positions = ps }))
    where
      step :
          (q : Option (Position D))
          → get_elem? i c.open_positions ≡ q
          → ((ps : List (Position D))
              → any_due (due c) i ps ≡ false
              → tick_positions j h to_json i (record c { open_positions = ps })
                ≡ ret tt (record c { open_positions = age i ps }))
          → tick_positions j h to_json (suc i) c
            ≡ ret tt (record c { open_positions = age (suc i) c.open_positions })
      step none e next =
          ground (arith, e, calm, age-none i c.open_positions e, next c.open_positions)
      step (some p) e next =
          let ps = set_elem i (older p) c.open_positions in
          ground (
            arith,
            e,
            calm,
            age-set_elem i p c.open_positions e,
            any_due-set_elem (due c) i i (older p) c.open_positions (omega arith),
            next ps,
          )

  -- A tick of the traded symbol at which no position is due returns: every position is one bar
  -- older, and nothing else changes.
  pub on_tick-quiet :
      (symbol : String) (c : Client D J W)
      → symbol ≡ c.trading_symbol
      → c.held trade_state ≡ false
      → any_due (due c) (length c.open_positions) c.open_positions ≡ false
      → on_tick j h to_json symbol c
        ≡ ret tt (record c { open_positions = map older c.open_positions })
  unfolding on_tick close_reason
  on_tick-quiet symbol c own free calm = ground (
    arith,
    eq_iff symbol c.trading_symbol,
    age-length c.open_positions,
    tick_positions-quiet (length c.open_positions) (record c { held = hold trade_state c.held })
        calm,
  )
