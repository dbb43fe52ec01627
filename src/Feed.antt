-- ===== src/Feed.antt =====
-- cpp_exec/redis_client.cpp: the program that keeps the book of a symbol from the stream "depth"
-- and publishes it on Redis. The mutex of the book is read as `mutable`: the methods lock it
-- although they are `const`. The WebSocket is a parameter: its messages arrive at `handle_message`.
pub mod Silent
pub mod Snapshot
use hl_cli.Prelude.{
  ℕ, zero, suc, Bool, true, false, not, ◌&&◌, Option, none, some, List, [], ◌∷◌, String, str_eq,
  str_append, if◌then◌else◌, pos,
}
use hl_cli.Double.{Double, nought}
use hl_cli.Json.{Json}
use hl_cli.Machine.{
  M, Outcome, ret, thrown, stuck, gets, skip, try_catch, for_each, from_option, ◌>>=◌, ◌>>◌,
}
use hl_cli.Numbers.{and_then, as_u64}
use hl_cli.Levels.{price_and_quantity}

-- The clock in microseconds, and Redis (none: it throws): `set` takes the time to live.
pub record Bus (W : Type 0) : Type 0 where
  pub now_us : W → ℕ × W
  pub publish : String → String → W → Option W
  pub set : String → String → ℕ → W → Option W

-- `std::unordered_map<double, double>`, in some order.
abbrev pub Side : Type 0 → Type 0
Side D = List (D × D)

-- The book and its client; `locked` tells whether the running thread holds `mtx`.
pub record Feed (D W : Type 0) : Type 0 where
  pub bids : Side D
  pub asks : Side D
  pub locked : Bool
  pub symbol : String
  pub snapshot_ttl_ms : ℕ
  pub has_redis : Bool  -- `redis_instance` is not null
  pub world : W

module _ {D : Type 0} ⦃d : Double D⦄ where
  unfoldable pub set_price : D → D → Side D → Side D
  set_price p q [] = (p, q) ∷ []
  set_price p q ((i, w) ∷ m) =
      let rest = set_price p q m in if d.eq i p then (i, q) ∷ m else (i, w) ∷ rest

  unfoldable pub erase_price : D → Side D → Side D
  erase_price p [] = []
  erase_price p ((i, w) ∷ m) =
      let rest = erase_price p m in if d.eq i p then rest else (i, w) ∷ rest

  -- A level of an update: the quantity 0 removes its price.
  unfoldable pub put_price : D × D → Side D → Side D
  put_price (p, q) m = if d.eq q nought then erase_price p m else set_price p q m

  -- `std::max_element` and `std::min_element` by price, from the best so far.
  abbrev pub highest : D × D → Side D → D × D
  highest b [] = b
  highest b (x ∷ m) = highest (if d.lt b.0 x.0 then x else b) m

  abbrev pub lowest : D × D → Side D → D × D
  lowest b [] = b
  lowest b (x ∷ m) = lowest (if d.lt x.0 b.0 then x else b) m

module _ {D : Type 0} where
  -- `std::sort` by an order of the prices, of which none is NaN (with NaN it is undefined).
  unfoldable pub insert_sorted : (D → D → Bool) → D × D → Side D → Side D
  insert_sorted before x [] = x ∷ []
  insert_sorted before x (y ∷ m) =
      let rest = insert_sorted before x m in if before y.0 x.0 then y ∷ rest else x ∷ y ∷ m

  unfoldable pub sort : (D → D → Bool) → Side D → Side D
  sort before [] = []
  sort before (x ∷ m) = insert_sorted before x (sort before m)

abbrev pub take : {A : Type 0} → ℕ → List A → List A
take zero l = []
take (suc n) [] = []
take (suc n) (x ∷ l) = x ∷ take n l

module _ {D : Type 0} ⦃d : Double D⦄ where
  -- The best levels of a side, at most `depth` of them.
  unfoldable pub best_bids : ℕ → Side D → Side D
  best_bids depth m = take depth (sort (λ x y. d.lt y x) m)

  unfoldable pub best_asks : ℕ → Side D → Side D
  best_asks depth m = take depth (sort d.lt m)

module _ {D W : Type 0} where
  abbrev unlocked : {A : Type 0} → Outcome (Feed D W) A → Outcome (Feed D W) A
  unlocked (ret a f) = ret a (record f { locked = false })
  unlocked (thrown e f) = thrown e (record f { locked = false })
  unlocked stuck = stuck

  -- `std::lock_guard<std::mutex> lock(mtx)`, which is not recursive.
  abbrev pub guarded : {A : Type 0} → M (Feed D W) A → M (Feed D W) A
  guarded body f = elim f.locked [
    | true ↦ stuck
    | false ↦ unlocked (body (record f { locked = true }))
  ]

  abbrev pub on_bids : (Side D → Side D) → Feed D W → Feed D W
  on_bids g f = record f { bids = g f.bids }

  abbrev pub on_asks : (Side D → Side D) → Feed D W → Feed D W
  on_asks g f = record f { asks = g f.asks }

module _ {D J : Type 0} (j : Json D J) where
  -- The levels under a key; without the key there are none.
  abbrev pub levels_of : J → String → List J
  levels_of v key = if j.contains v key then j.elements (j.field v key) else []

  abbrev pub is_depth : J → Bool
  is_depth v =
      j.contains v "e"
      && elim (j.get_string (j.field v "e")) [ none ↦ false | some s ↦ str_eq s "depth" ]

module _ {D J : Type 0} ⦃d : Double D⦄ (j : Json D J) where
  abbrev is_cut : List J → Bool
  is_cut [] = true
  is_cut (p ∷ []) = elim (and_then (j.get_string p) d.stod) [ none ↦ false | some x ↦ true ]
  is_cut _ = false

  -- An array that is too short is read past its end (its first element, if there is one, is a
  -- number).
  abbrev pub is_short : J → Bool
  is_short v = if j.is_array v then is_cut (j.elements v) else false

module _ {D J W : Type 0} ⦃d : Double D⦄ (j : Json D J) (bus : Bus W) where
  -- One level of an update; a read past the end of an array, which is undefined behaviour, is
  -- `stuck`.
  unfoldable pub apply_level :
      ((Side D → Side D) → Feed D W → Feed D W) → J → M (Feed D W) (Unit {0})
  apply_level put v f = if is_short j v then stuck else (elim (price_and_quantity j v) [
    | none ↦ thrown "stod" f
    | some l ↦ ret tt (put (put_price l) f)
  ])

  unfoldable pub apply_levels : J → M (Feed D W) (Unit {0})
  apply_levels v =
      for_each (levels_of j v "a") (apply_level on_asks)
      >> for_each (levels_of j v "b") (apply_level on_bids)

  abbrev pub l1_json : String → D × D → D × D → ℕ → ℕ → J
  l1_json symbol bid ask timestamp update_id = j.put "updateId" (j.of_ℤ (pos update_id)) (
      j.put "timestamp" (j.of_ℤ (pos timestamp)) (
        j.put "askQty" (j.of_double ask.1) (
          j.put "bidQty" (j.of_double bid.1) (
            j.put "askPrice" (j.of_double ask.0) (
              j.put "bidPrice" (j.of_double bid.0)
                (j.put "symbol" (j.of_string symbol) j.object))))))

  unfoldable pub publish_text : String → M (Feed D W) (Unit {0})
  publish_text text f = elim (bus.publish "l1:quotes" text f.world) [
    | none ↦ thrown "redis" f
    | some w ↦ ret tt (record f { world = w })
  ]

  -- The best levels of a book that has both sides.
  unfoldable pub publish_best : Side D → Side D → M (Feed D W) (Unit {0})
  unfolding publish_text
  publish_best (b ∷ bids) (a ∷ asks) f =
      let (now, w) = bus.now_us f.world in
      if f.has_redis
      then publish_text (j.dump (l1_json "SOL_USDC_PERP" (highest b bids) (lowest a asks) now now))
          (record f { world = w })
      else ret tt (record f { world = w })
  publish_best _ _ f = ret tt f

  unfoldable pub publish_l1_data : M (Feed D W) (Unit {0})
  publish_l1_data = guarded λ f. publish_best f.bids f.asks f

  -- `apply_update`, which calls `publish_l1_data` while it holds the mutex.
  unfoldable pub apply_update : J → M (Feed D W) (Unit {0})
  apply_update v = guarded (apply_levels v >> publish_l1_data)

  -- The first level of a side, as the quote that `handle_message` publishes itself.
  abbrev first_level : List J → M (Feed D W) (D × D)
  first_level [] f = stuck
  first_level (v ∷ l) f = if is_short j v then stuck else from_option (price_and_quantity j v) f

  unfoldable pub publish_first : J → M (Feed D W) (Unit {0})
  unfolding publish_text
  publish_first v f =
      (do
        b ← first_level (levels_of j v "b")
        a ← first_level (levels_of j v "a")
        now ← (λ f'. let (us, w) = bus.now_us f'.world in ret us (record f' { world = w }))
        u ← from_option (
            if j.contains v "u"
            then and_then (j.get_int64 (j.field v "u")) (λ z. some (as_u64 z))
            else some now)
        publish_text (j.dump (l1_json f.symbol b a now u)))
        f

  abbrev is_nil : {A : Type 0} → List A → Bool
  is_nil [] = true
  is_nil (x ∷ xs) = false

  -- What follows `apply_update`.
  unfoldable pub publish_message : J → M (Feed D W) (Unit {0})
  publish_message v =
      if not (is_nil (levels_of j v "b")) && not (is_nil (levels_of j v "a"))
      then try_catch (publish_first v) (λ e. skip)
      else skip

  unfoldable pub handle_message : String → M (Feed D W) (Unit {0})
  handle_message payload =
      try_catch
        (do
          v ← from_option (j.parse payload)
          (if is_depth j v then apply_update v >> publish_message v else skip))
        (λ e. skip)

  abbrev pair_json : D × D → J
  pair_json l = j.array (j.of_double l.0 ∷ j.of_double l.1 ∷ [])

  abbrev pairs_json : Side D → List J
  pairs_json [] = []
  pairs_json (l ∷ m) = pair_json l ∷ pairs_json m

  abbrev pub put_side : String → Side D → J → J
  put_side key [] v = v
  put_side key (l ∷ m) v = j.put key (j.array (pairs_json (l ∷ m))) v

  unfoldable pub snapshot : ℕ → M (Feed D W) J
  unfolding best_bids best_asks
  snapshot depth = guarded (
      gets
        λ f. put_side "a" (best_asks depth f.asks) (put_side "b" (best_bids depth f.bids) j.null))

  unfoldable pub push_snapshot : M (Feed D W) (Unit {0})
  push_snapshot =
      try_catch
        (do
          v ← snapshot 10
          (λ f.
              elim (bus.set (str_append "l2:depth:" f.symbol) (j.dump v) f.snapshot_ttl_ms
                f.world) [ none ↦ thrown "redis" f | some w ↦ ret tt (record f { world = w }) ]))
        (λ e. skip)
