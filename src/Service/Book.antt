-- ===== src/Service/Book.antt =====
-- data_ingestion/backpack_data_service.cpp: `OrderBookCache`, the book of one symbol.
use hl_cli.Prelude.{
  Bool, ◌||◌, Option, none, some, List, [], ◌∷◌, String, if◌then◌else◌, ltb, ℤ, pos, ◌-ℤ◌, leb_ℤ,
}
use hl_cli.Double.{Double, nought}
use hl_cli.Json.{Json, value_of}
use hl_cli.Machine.{M, ret, thrown, modify, for_each, from_option, ◌>>=◌, ◌>>◌}
use hl_cli.Levels.{price_and_quantity}

-- `std::map<double, double>`: prices and quantities by ascending price.
abbrev pub Levels : Type 0 → Type 0
Levels D = List (D × D)

module _ {D : Type 0} ⦃d : Double D⦄ where
  -- `m[p] = q`
  unfoldable pub set_level : D → D → Levels D → Levels D
  set_level p q [] = (p, q) ∷ []
  set_level p q ((i, w) ∷ m) =
      let rest = set_level p q m in
      if d.lt p i then (p, q) ∷ (i, w) ∷ m else if d.lt i p then (i, w) ∷ rest else (i, q) ∷ m

  -- `m.erase(p)`
  unfoldable pub erase_level : D → Levels D → Levels D
  erase_level p [] = []
  erase_level p ((i, w) ∷ m) =
      let rest = erase_level p m in if d.lt p i || d.lt i p then (i, w) ∷ rest else rest

  -- A level of an update: a quantity that is not positive removes its price.
  unfoldable pub put_level : D × D → Levels D → Levels D
  put_level (p, q) m = if d.le q nought then erase_level p m else set_level p q m

pub record OrderBookCache (D : Type 0) : Type 0 where
  pub last_update_id : ℤ
  pub last_write_time : ℤ
  pub bids : Levels D
  pub asks : Levels D

module _ {D : Type 0} where
  abbrev pub empty_cache : OrderBookCache D
  empty_cache = record { last_update_id = pos 0; last_write_time = pos 0; bids = []; asks = [] }

  abbrev pub on_bids : (Levels D → Levels D) → OrderBookCache D → OrderBookCache D
  on_bids f c = record c { bids = f c.bids }

  abbrev pub on_asks : (Levels D → Levels D) → OrderBookCache D → OrderBookCache D
  on_asks f c = record c { asks = f c.asks }

  -- `shouldWrite`, with WRITE_INTERVAL_MS = 1000.
  unfoldable pub should_write : ℤ → OrderBookCache D → Bool
  should_write now c = leb_ℤ (pos 1000) (now -ℤ c.last_write_time)

module _ {D J : Type 0} ⦃d : Double D⦄ (j : Json D J) where
  -- One member of an array of levels; `put` puts it on its side. A short one is passed over.
  unfoldable pub apply_level :
      ((Levels D → Levels D) → OrderBookCache D → OrderBookCache D)
      → J
      → M (OrderBookCache D) (Unit {0})
  apply_level put v c = if ltb (j.size v) 2 then ret tt c else (elim (price_and_quantity j v) [
    | none ↦ thrown "stod" c
    | some l ↦ ret tt (put (put_level l) c)
  ])

  -- `data.value(key, json::array())`, as what a loop goes over; none if `data` is no object.
  abbrev pub levels_of : J → String → Option (List J)
  levels_of v key =
      if j.is_object v
      then some (if j.contains v key then j.elements (j.field v key) else [])
      else none

  -- `update`: the bids, the asks, and the number of the update.
  unfoldable pub update : J → M (OrderBookCache D) (Unit {0})
  unfolding apply_level
  update v = do
    bids ← from_option (levels_of v "b")
    for_each bids (apply_level on_bids)
    asks ← from_option (levels_of v "a")
    for_each asks (apply_level on_asks)
    (λ c.
        (do
          u ← from_option (value_of j j.get_int64 v "u" c.last_update_id)
          modify λ c'. record c' { last_update_id = u })
          c)

  -- One side of `getSnapshot`: quantities above MIN_QUANTITY_CHANGE = 0.001.
  unfoldable pub side_snapshot : Levels D → List J
  side_snapshot [] = []
  side_snapshot ((p, q) ∷ m) =
      let rest = side_snapshot m in
      if d.lt (d.lit 1 3) q
      then (j.put "quantity" (j.of_double q) (j.put "price" (j.of_double p) j.object) ∷ rest)
      else rest
