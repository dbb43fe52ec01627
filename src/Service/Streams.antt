-- ===== src/Service/Streams.antt =====
-- data_ingestion/backpack_data_service.cpp: the handlers of the streams of `BackpackDataService`.
-- `symbol` is the environment's TRADING_SYMBOL (or its default), `publish` is Redis (none: it
-- throws).
pub mod Spacing
use text.Mathlib.Text.{starts_with}
use hl_cli.Prelude.{
  Bool, true, false, not, ◌&&◌, ◌||◌, Option, none, some, List, [], ◌∷◌, String, str_eq,
  is_empty_text, if◌then◌else◌, Assoc, find, insert, ℤ, pos,
}
use hl_cli.Double.{Double, nought}
use hl_cli.Json.{Json, value_of, value_string}
use hl_cli.Host.{Host}
use hl_cli.Machine.{M, ret, thrown, stuck, modify, skip, try_catch, from_option, ◌>>=◌, ◌>>◌}
use hl_cli.Numbers.{json_get_int64, and_then, or_default, as_i32, to_ms_ℤ}
use hl_cli.Service.Writer.{DbOperation}
use hl_cli.Service.Klines.{bool_text, str, kline_row}
use hl_cli.Service.Split.{split}
use hl_cli.Service.Book.{OrderBookCache, empty_cache, should_write, update, side_snapshot}

-- The books by symbol, the operations handed to the writer, the latest first, and the world.
pub record Service (D W : Type 0) : Type 0 where
  pub orderbook_cache : Assoc (OrderBookCache D)
  pub enqueued : List DbOperation
  pub world : W

module _ {D J W : Type 0} ⦃d : Double D⦄ (j : Json D J) (h : Host W) (symbol : String) where
  abbrev pub enqueue : String → List String → M (Service D W) (Unit {0})
  enqueue query row =
      modify λ s. record s { enqueued = record { query = query; params = row ∷ [] } ∷ s.enqueued }

  -- A number that is sent as a text, "0" if it is missing.
  abbrev text_number : J → String → Option D
  text_number v key = and_then (value_string j v key "0") d.stod

  -- `handleTrade`, once the price and the quantity are read.
  unfoldable pub store_trade : J → String → D → D → M (Service D W) (Unit {0})
  store_trade v trade_id price qty = do
    time ← from_option (value_of j j.get_int64 v "T" (pos 0))
    maker ← from_option (value_of j j.get_bool v "m" false)
    liquidation ← from_option (value_of j j.get_bool v "l" false)
    enqueue
        "INSERT INTO trades (symbol, trade_id, side, price, quantity, timestamp, is_liquidation) VALUES"
        (symbol
          ∷ trade_id
          ∷ (if maker then "sell" else "buy")
          ∷ str price
          ∷ str qty
          ∷ h.decimal (to_ms_ℤ time)
          ∷ bool_text liquidation
          ∷ [])

  -- `d.value("t", 0)` is an `int`.
  unfoldable pub handle_trade : J → M (Service D W) (Unit {0})
  handle_trade v = do
    s ← from_option (value_string j v "s" "")
    (if is_empty_text s || not (str_eq s symbol) then skip else (do
      t ← from_option (value_of j j.get_int64 v "t" (pos 0))
      (elim (text_number v "p") [
        | none ↦ skip
        | some price ↦ elim (text_number v "q") [
          | none ↦ skip
          | some qty ↦ store_trade v (h.decimal (as_i32 t)) price qty
        ]
      ])))

  -- `handleLiquidation`; `std::to_string` of a double has six decimals.
  unfoldable pub handle_liquidation : J → M (Service D W) (Unit {0})
  handle_liquidation v = do
    s ← from_option (value_string j v "symbol" "")
    (if is_empty_text s then skip else (do
      id ← from_option (value_of j j.get_int64 v "id" (pos 0))
      price ← from_option (value_of j j.get_double v "price" nought)
      qty ← from_option (value_of j j.get_double v "quantity" nought)
      now ← (λ c. let (ms, w) = h.system_ms c.world in ret (pos ms) (record c { world = w }))
      time ← from_option (value_of j j.get_int64 v "timestamp" now)
      enqueue "INSERT INTO liquidations (symbol, id, price, quantity, timestamp) VALUES" (
          s
          ∷ h.decimal (as_i32 id)
          ∷ d.fixed price 6
          ∷ d.fixed qty 6
          ∷ h.decimal (to_ms_ℤ time)
          ∷ [])))

  abbrev pub klines_query : String
  klines_query =
      "INSERT INTO klines (symbol, interval, timestamp, open, high, low, close, volume, trade_count, closed) VALUES"

  unfoldable pub kline_parts : J → List String → M (Service D W) (Unit {0})
  unfolding kline_row
  kline_parts v (kind ∷ interval ∷ s ∷ []) =
      if str_eq s symbol
      then (elim (kline_row j h symbol interval v) [
        | none ↦ skip
        | some row ↦ enqueue klines_query row
      ])
      else skip
  kline_parts v _ = skip

  -- `handleKline`
  unfoldable pub handle_kline : String → J → M (Service D W) (Unit {0})
  handle_kline stream v = kline_parts v (split stream ".")

  -- `orderbook_cache_[symbol]`
  abbrev pub book_of : Service D W → OrderBookCache D
  book_of s = or_default empty_cache (find symbol s.orderbook_cache)

  abbrev pub set_book : OrderBookCache D → Service D W → Service D W
  set_book c s = record s { orderbook_cache = insert symbol c s.orderbook_cache }

  -- An update that throws leaves what it has done so far.
  unfoldable pub update_book : J → M (Service D W) (Unit {0})
  update_book v s = elim (update j v (book_of s)) [
    | ret _ c ↦ ret tt (set_book c s)
    | thrown e c ↦ thrown e (set_book c s)
    | stuck ↦ stuck
  ]

  abbrev is_nil : {A : Type 0} → List A → Bool
  is_nil [] = true
  is_nil (x ∷ xs) = false

  -- The row of a snapshot.
  abbrev pub snapshot_row : ℤ → OrderBookCache D → List String
  snapshot_row time c =
      symbol
      ∷ h.decimal time
      ∷ h.decimal c.last_update_id
      ∷ j.dump (j.array (side_snapshot j c.bids))
      ∷ j.dump (j.array (side_snapshot j c.asks))
      ∷ []

  -- What follows the update: a snapshot, if it is time and both sides have levels to show.
  unfoldable pub write_snapshot : ℤ → M (Service D W) (Unit {0})
  unfolding should_write
  write_snapshot time s =
      let c = book_of s in
      if should_write time c
        && not (is_nil c.bids)
        && not (is_nil c.asks)
        && not (is_nil (side_snapshot j c.bids))
        && not (is_nil (side_snapshot j c.asks))
      then (do
        enqueue
            "INSERT INTO orderbook_snapshots (symbol, timestamp, last_update_id, bids, asks) VALUES"
            (snapshot_row time c)
        modify (set_book (record c { last_write_time = time })))
          s
      else ret tt s

  unfoldable pub handle_depth : J → M (Service D W) (Unit {0})
  handle_depth v = do
    s ← from_option (value_string j v "s" "")
    (if is_empty_text s || not (str_eq s symbol) then skip else (do
      time ← from_option (value_of j j.get_int64 v "T" (pos 0))
      update_book v
      write_snapshot (to_ms_ℤ time)))

  module _ (publish : String → String → W → Option W) where
    -- `data[key].get<std::string>()`: a value that is no object throws; a member that is missing in
    -- a constant object is undefined behaviour (or a failed assertion), and `stuck`.
    abbrev text_of : J → String → M (Service D W) String
    text_of v key s =
        if j.is_object v
        then (if j.contains v key then from_option (j.get_string (j.field v key)) s else stuck)
        else thrown "type_error" s

    abbrev number_of : J → String → M (Service D W) D
    number_of v key = do t ← text_of v key; from_option (d.stod t)

    abbrev pub l1_json : String → D → D → D → D → ℤ → String → J
    l1_json s bid ask bid_qty ask_qty time update_id = j.put "updateId" (j.of_string update_id) (
        j.put "timestamp" (j.of_ℤ time) (
          j.put "askQty" (j.of_double ask_qty) (
            j.put "bidQty" (j.of_double bid_qty) (
              j.put "askPrice" (j.of_double ask)
                (j.put "bidPrice" (j.of_double bid) (j.put "symbol" (j.of_string s) j.object))))))

    unfoldable pub publish_l1 : J → M (Service D W) (Unit {0})
    publish_l1 v s = elim (publish "l1:quotes" (j.dump v) s.world) [
      | none ↦ thrown "redis" s
      | some w ↦ ret tt (record s { world = w })
    ]

    -- `handleBookTicker`: the quote is published, then stored.
    unfoldable pub handle_book_ticker : J → M (Service D W) (Unit {0})
    handle_book_ticker v =
        try_catch
          (do
            s ← text_of v "s"
            bid ← number_of v "b"
            ask ← number_of v "a"
            bid_qty ← number_of v "B"
            ask_qty ← number_of v "A"
            let time = to_ms_ℤ (json_get_int64 j h v "T" (pos 0))
            let update_id = h.decimal (json_get_int64 j h v "u" (pos 0))
            publish_l1 (l1_json s bid ask bid_qty ask_qty time update_id)
            enqueue
                "INSERT INTO book_tickers (symbol, bid_price, ask_price, bid_quantity, ask_quantity, timestamp, update_id) VALUES"
                (s
                  ∷ str bid
                  ∷ str ask
                  ∷ str bid_qty
                  ∷ str ask_qty
                  ∷ h.decimal time
                  ∷ update_id
                  ∷ []))
          (λ e. skip)

    -- `handleStream`: the stream's name decides by its beginning.
    unfoldable pub handle_stream : String → J → M (Service D W) (Unit {0})
    handle_stream stream v =
        if starts_with stream "trade."
        then handle_trade v
        else if starts_with stream "liquidation."
        then handle_liquidation v
        else if starts_with stream "kline."
        then handle_kline stream v
        else if starts_with stream "depth."
        then handle_depth v
        else if starts_with stream "bookTicker."
        then handle_book_ticker v
        else skip

    -- A message that can be read.
    unfoldable pub read_message : J → M (Service D W) (Unit {0})
    read_message v =
        if j.contains v "result" || j.contains v "error"
        then skip
        else if j.contains v "stream" && j.contains v "data"
        then (do
          stream ← from_option (j.get_string (j.field v "stream"))
          handle_stream stream (j.field v "data"))
        else skip

    -- `onMessage`
    unfoldable pub on_message : String → M (Service D W) (Unit {0})
    on_message text = try_catch (do v ← from_option (j.parse text); read_message v) (λ e. skip)
