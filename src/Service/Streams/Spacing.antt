-- ===== src/Service/Streams/Spacing.antt =====
-- How often data_ingestion/backpack_data_service.cpp stores a snapshot of the book.
use hl_cli.Prelude.{
  ℕ, ◌+◌, ◌*◌, ◌≡◌, Bool, true, ◌&&◌, Option, none, some, List, [], ◌∷◌, String, str_eq,
  if◌then◌else◌, arith, ℤ, pos, ◌-ℤ◌, ◌≤ℤ◌,
}
use hl_cli.Double.{Double}
use hl_cli.Json.{Json}
use hl_cli.Host.{Host}
use text.Mathlib.Text.{starts_with}
use hl_cli.Machine.Relates.{Relates}
use hl_cli.Service.Writer.{DbOperation}
use hl_cli.Service.Book.{OrderBookCache}
use hl_cli.Service.Streams.{Service, store_trade, book_of}

module _ {D : Type 0} where
  abbrev SameTime : OrderBookCache D → OrderBookCache D → Type 0
  SameTime c c' = c'.last_write_time ≡ c.last_write_time

abbrev snapshots_query : String
snapshots_query =
    "INSERT INTO orderbook_snapshots (symbol, timestamp, last_update_id, bids, asks) VALUES"

-- How many of the operations store a snapshot.
abbrev pub count_snapshots : List DbOperation → ℕ
count_snapshots [] = 0
count_snapshots (op ∷ ops) =
    (if str_eq op.query snapshots_query then 1 else 0) + count_snapshots ops

module _ {D J : Type 0} (j : Json D J) where
  -- An object has the members that `handleBookTicker` reads with `operator[]`.
  abbrev has_quote : J → Bool
  has_quote v =
      if j.is_object v
      then j.contains v "s"
        && (j.contains v "b" && (j.contains v "a" && (j.contains v "B" && j.contains v "A")))
      else true

  abbrev has_members : Option String → J → Bool
  has_members none v = true
  has_members (some stream) v = if starts_with stream "bookTicker." then has_quote v else true

  abbrev has_data : Option J → Bool
  has_data none = true
  has_data (some v) = has_members (j.get_string (j.field v "stream")) (j.field v "data")

  -- If the message is from a stream "bookTicker.", its data have these members.
  abbrev pub IsComplete : String → Type 0
  IsComplete text = has_data (j.parse text) ≡ true

module _ {D J W : Type 0} ⦃d : Double D⦄ (j : Json D J) (h : Host W) (symbol : String)
    (publish : String → String → W → Option W) where
  -- The snapshots stored up to now, a second each, less the time of the last one.
  abbrev excess : Service D W → ℤ
  excess s = pos (1000 * count_snapshots s.enqueued) -ℤ (book_of j h symbol s).last_write_time

  abbrev Spaced : Service D W → Service D W → Type 0
  Spaced s t = excess t ≤ℤ excess s

  store_trade-Spaced :
      (v : J) (id : String) (price qty : D) (s : Service D W)
      → Relates Spaced s (store_trade j h symbol v id price qty s)
  unfolding store_trade
  store_trade-Spaced v id price qty s = ground arith
