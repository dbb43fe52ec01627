-- ===== src/Feeder/Relay.antt =====
-- The quotes of redis_l1_feeder/main.cpp, as `handleL1Update` of cpp_exec/exec_bridge.cpp takes them
-- over.
use hl_cli.Prelude.{ℕ, ◌/◌, ◌≡◌, true, List, [], ◌∷◌, String, All, pos}
use hl_cli.Double.{Double, nought}
use hl_cli.Json.{Json, HasMembers, HasScalars}
use hl_cli.Levels.{Level}
use hl_cli.Host.{Host}
use hl_cli.Numbers.{or_default, json_get_int64, as_u64}
use hl_cli.Data.{BookTicker}
use hl_cli.Client.{Client}
use hl_cli.Feeder.{side_of, quote_json}
use hl_cli.Feeder.Best.{level_price}

module _ {D J W : Type 0} ⦃d : Double D⦄ (j : Json D J) where
  -- The client's prices are the best ones of the book `v`: no bid is above the bid, no ask is
  -- below the ask.
  abbrev pub IsBest : J → Client D J W → Type 0
  IsBest v c =
      All (λ l. d.le (level_price j l) c.best_bid ≡ true) (side_of j v "bids")
      × All (λ l. d.le c.best_ask (level_price j l) ≡ true) (side_of j v "asks")

module _ {D J W : Type 0} ⦃d : Double D⦄ (j : Json D J) (h : Host W) (laws : HasMembers D J ⦃j = j⦄)
    (scalars : HasScalars D J ⦃j = j⦄) where
  -- The members of the payload.
  abbrev quote_members : String → Level × Level → ℕ → ℕ → List (String × J)
  quote_members symbol (b, a) time update_id =
      ("updateId", j.of_ℤ (pos update_id))
      ∷ ("timestamp", j.of_ℤ (pos (time / 1000)))
      ∷ ("askQty", j.of_string a.1)
      ∷ ("bidQty", j.of_string b.1)
      ∷ ("askPrice", j.of_string a.0)
      ∷ ("bidPrice", j.of_string b.0)
      ∷ ("symbol", j.of_string symbol)
      ∷ []

  abbrev text_number : String → D
  text_number s = or_default nought (d.stod s)

  -- The ticker that `handleL1Update` reads out of a payload of the feeder.
  abbrev relayed : String → Level × Level → ℕ → ℕ → BookTicker D
  relayed symbol levels time update_id = record {
    symbol = symbol;
    bid_price = text_number levels.0.0;
    ask_price = text_number levels.1.0;
    bid_qty = text_number levels.0.1;
    ask_qty = text_number levels.1.1;
    timestamp = time / 1000;
    update_id =
        as_u64
          (json_get_int64 j h (quote_json j h symbol levels time update_id) "updateId" (pos 0));
  }
