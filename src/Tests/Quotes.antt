-- ===== src/Tests/Quotes.antt =====
-- Runs of redis_l1_feeder/main.cpp, cpp_exec/redis_client.cpp and of the WebSocket's handlers of
-- cpp_exec/exec_bridge.cpp.
use hl_cli.Prelude.{Bool, ◌≡◌, refl, true, false, none, some, String, List, [], ◌∷◌, Option}
use hl_cli.Double.Fixed.{Fixed, fixed_double}
use hl_cli.Json.{Json}
use hl_cli.Machine.{ret, Returns}
use hl_cli.Client.{Client}
use hl_cli.Client.Bootstrap.{Sdk}
use hl_cli.Client.OrderSocket.{on_message, bootstrap_thread}
use hl_cli.Client.OrderSocket.Armed.{here, on_message-Restarts}
use hl_cli.Feeder.{quote_json}
use hl_cli.Feed.{Bus, Feed, put_side, snapshot, handle_message}
use hl_cli.Feed.Silent.{Blocks, handle_message-Blocks}
use hl_cli.Feed.Snapshot.{AreFirst, snapshot-AreFirst}
use hl_cli.Samples.{
  Value, null_value, member, text, empty_object, World, scripted, price_of, sample_client,
  value_json,
}
use hl_cli.Samples.Laws.{parsing, reading, reading-IsOrdered, book_value}

abbrev sample_quote : Value
sample_quote = quote_json value_json scripted "SOL" (("99", "2"), ("101", "2")) 0 7

abbrev quote_parse : String → Option Value
quote_parse s = some sample_quote

abbrev relay_json : Json Fixed Value
relay_json = parsing quote_parse

-- A thread of the SDK that is authenticated, and the cache's conversions.
abbrev sample_sdk : Sdk
sample_sdk = record { status_of = λ s. none; side_of = λ s. none; type_of = λ s. none }

abbrev subscribing : String → World → Option (Bool × World)
subscribing symbol w = some (true, w)

abbrev authenticated : String → Option Value
authenticated s = some (member "type" (text "authenticated") empty_object)

abbrev socket_json : Json Fixed Value
socket_json = parsing authenticated

on_message-Restarts_example :
    (c' : Client Fixed Value World) × (on_message socket_json subscribing "hello" (sample_client [])
      ≡ ret true c')
    × Returns
        (λ _ c''. c''.bootstrap_in_progress ≡ false)
        (bootstrap_thread socket_json scripted sample_sdk c')
on_message-Restarts_example =
    on_message-Restarts socket_json scripted sample_sdk subscribing "hello" refl here refl refl (
      member "type" (text "authenticated") empty_object,
      (sample_client []).net.world,
      refl,
      refl,
      refl,
      refl,
    )

abbrev sample_bus : Bus String
sample_bus = record {
  now_us = λ w. (1, w);
  publish = λ channel text w. some text;
  set = λ key value ttl w. some value;
}

abbrev sample_feed : Feed Fixed String
sample_feed = record {
  bids = [];
  asks = [];
  locked = false;
  symbol = "SOL";
  snapshot_ttl_ms = 1000;
  has_redis = true;
  world = "nothing";
}

abbrev depth_message : Value
depth_message = member "e" (text "depth") (book_value "b" "a")

abbrev depth_parse : String → Option Value
depth_parse s = some depth_message

handle_message-Blocks_example :
    Blocks true sample_feed
      (handle_message ⦃d = reading⦄ (parsing depth_parse) sample_bus "depth" sample_feed)
handle_message-Blocks_example =
    handle_message-Blocks ⦃d = reading⦄ (parsing depth_parse) sample_bus "depth" depth_message
      sample_feed refl refl refl refl

abbrev sample_bids : List (Fixed × Fixed)
sample_bids = (price_of 98, price_of 2) ∷ (price_of 99, price_of 2) ∷ (price_of 97, price_of 2) ∷ []

abbrev bids_only : Feed Fixed String
bids_only = record sample_feed { bids = sample_bids }

snapshot-AreFirst_example :
    (bids : List (Fixed × Fixed)) × (asks : List (Fixed × Fixed)) × (snapshot ⦃d = reading⦄
        value_json sample_bus 2 bids_only
      ≡ ret
          (put_side ⦃d = reading⦄ value_json sample_bus "a" asks
            (put_side ⦃d = reading⦄ value_json sample_bus "b" bids null_value))
          bids_only)
    × AreFirst (λ x y. reading.lt y x) 2 sample_bids bids
    × AreFirst reading.lt 2 [] asks
snapshot-AreFirst_example =
    snapshot-AreFirst ⦃d = reading⦄ reading-IsOrdered value_json sample_bus 2 bids_only refl
      (refl, (refl, (refl, tt))) tt
