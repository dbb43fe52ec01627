-- ===== src/Feeder/Best.antt =====
-- redis_l1_feeder/main.cpp and `handleL1Update` of cpp_exec/exec_bridge.cpp together: the prices
-- that the client takes over are the best ones of the book that the exchange sent.
use mathlib.Core.Path.{subst}
use mathlib.Core.List.{map}
use hl_cli.Prelude.{◌≡◌, true, some, List, [], ◌∷◌, All}
use hl_cli.Double.{Double, IsOrdered, nought}
use hl_cli.Json.{Json}
use hl_cli.Levels.{read_level}
use hl_cli.Numbers.{and_then, or_default}
use hl_cli.Feeder.{front, back}

module _ {D : Type 0} ⦃d : Double D⦄ where
  -- No price is above the next one, and none is NaN.
  abbrev pub IsAscending : List D → Type 0
  IsAscending [] = Unit
  IsAscending (x ∷ []) = d.le x x ≡ true
  IsAscending (x ∷ y ∷ l) = (d.le x y ≡ true) × IsAscending (y ∷ l)

module _ {D J : Type 0} ⦃d : Double D⦄ (j : Json D J) where
  -- The price of a level, as the client reads it.
  abbrev pub level_price : J → D
  level_price v = or_default nought (and_then (and_then (read_level j v) λ l. some l.0) d.stod)

  module _ (o : IsOrdered D) where
    ascending_refl : (x : D) (l : List D) → IsAscending (x ∷ l) → d.le x x ≡ true
    ascending_refl x [] up = up
    ascending_refl x (y ∷ l) up = o.le_left x y up.0

    IsAscending-tail : (x : D) (l : List D) → IsAscending (x ∷ l) → IsAscending l
    IsAscending-tail x [] up = tt
    IsAscending-tail x (y ∷ l) up = up.1

    above_first :
        (w v : J) (l : List J)
        → d.le (level_price w) (level_price v) ≡ true
        → IsAscending (map level_price (v ∷ l))
        → All (λ x. d.le (level_price w) (level_price x) ≡ true) (v ∷ l)
    above_first w v [] le up = (le, tt)
    above_first w v (x ∷ l) le up = (
      le,
      above_first w x l (o.le_trans (level_price w) (level_price v) (level_price x) le up.0) up.1,
    )

    pub front-IsAscending :
        (l : List J) (w : J)
        → IsAscending (map level_price l)
        → front l ≡ some w
        → All (λ x. d.le (level_price w) (level_price x) ≡ true) l
    front-IsAscending [] w up e = tt
    front-IsAscending (v ∷ l) w up e =
        let first : All (λ x. d.le (level_price v) (level_price x) ≡ true) (v ∷ l) =
          above_first v v l (ascending_refl (level_price v) (map level_price l) up) up in
        let same : v ≡ w = cc in
        subst (λ (t : J). All (λ x. d.le (level_price t) (level_price x) ≡ true) (v ∷ l)) same first

    pub back-IsAscending :
        (l : List J) (w : J)
        → IsAscending (map level_price l)
        → back l ≡ some w
        → All (λ x. d.le (level_price x) (level_price w) ≡ true) l
    back-IsAscending [] w up e = tt
    back-IsAscending (v ∷ []) w up e =
        let same : v ≡ w = cc in
        (subst (λ (t : J). d.le (level_price v) (level_price t) ≡ true) same up, tt)
    back-IsAscending (v ∷ x ∷ l) w up e =
        let rest = back-IsAscending (x ∷ l) w up.1 e in
        (o.le_trans (level_price v) (level_price x) (level_price w) up.0 rest.0, rest)
