-- ===== src/Tests/Programs.antt =====
-- Runs of cpp_exec/main.cpp, cpp_exec/low_latency_predictor.cpp, and of the file and the
-- identifiers of cpp_exec/exec_bridge.cpp.
use hl_cli.Prelude.{
  arith, ◌≡◌, refl, true, Option, none, some, inr, String, str_eq, [], ◌∷◌, if◌then◌else◌,
}
use hl_cli.Double.Fixed.{Fixed, fixed_double}
use hl_cli.Client.Start.{initial_client}
use hl_cli.Startup.{start_client}
use hl_cli.Startup.Symbol.{start_client-written}
use hl_cli.Predictor.{MarketData, new_predictor, offer, Reach, here, next, enqueue, start, at_test}
use hl_cli.Predictor.Ordered.{Predicts, Reach-Predicts}
use hl_cli.Machine.{Returns, ◌>>◌}
use hl_cli.Json.{Json}
use hl_cli.Data.{ActivePosition, buy, TradeEventType}
use hl_cli.Client.{Client}
use hl_cli.Client.Positions.{
  position_json, positions_json, positions_to_json, load_positions_from_json,
}
use hl_cli.Client.Positions.Restored.{AreRestored, load-positions_to_json}
use hl_cli.Samples.Laws.{
  parsing, parsing-HasMembers, parsing-HasScalars, parsing-HasValues, parsing-HasItems,
}
use hl_cli.Uuid.{generate_uuid_v4}
use hl_cli.Samples.{
  scripted, world_of, Value, World, put_member, empty_object, value_json, sample_client, price_of,
  net_of,
}

-- With a generator that always draws the least number.
least_uuid : (generate_uuid_v4 scripted (world_of [])).0 ≡ "00000000-0000-4000-8000-000000000000"
unfolding generate_uuid_v4
least_uuid = refl

abbrev environment : String → Option String
environment key =
    if str_eq key "BACKPACK_API_KEY"
    then some "key"
    else if str_eq key "BACKPACK_API_SECRET_B64"
    then some "secret"
    else if str_eq key "TRADING_SYMBOL"
    then some " \"SOL\" # the market"
    else none

start_client-written_example :
    start_client {D = Fixed} {J = Value} environment true (net_of [])
    ≡ inr (initial_client "key" "secret" "SOL" true (net_of []))
start_client-written_example =
    start_client-written environment true (net_of []) "key" "secret" " " (some "\"") "SOL" " "
      (some " the market") (refl, refl, refl) (refl, tt) (refl, tt) refl (refl, (refl, (refl, tt)))

abbrev sample_data : MarketData Fixed
sample_data = record {
  timestamp = price_of 1;
  features = price_of 1 ∷ [];
  bid_price = price_of 99;
  ask_price = price_of 101;
  bid_size = price_of 1;
  ask_size = price_of 1;
}

-- An item is put into the ring, and the thread starts.
abbrev offered :
    Reach sample_data
      (record (offer sample_data (new_predictor sample_data)) { running = true; pc = at_test })
unfolding offer new_predictor
offered = next (next here (enqueue sample_data)) (start refl)

Reach-Predicts_example :
    Predicts
      (record (offer sample_data (new_predictor sample_data)) { running = true; pc = at_test })
Reach-Predicts_example = Reach-Predicts sample_data offered

abbrev kept : ActivePosition Fixed
kept = record {
  model_id = "m";
  trading_symbol = "SOL";
  side = buy;
  entry_price = price_of 100;
  stop_loss_price = some (price_of 90);
  quantity = price_of 2;
  quantity_filled_so_far = price_of 2;
  entry_timestamp = 7;
  order_ids = "o1" ∷ [];
  stop_order_ids = [];
  closing_order_id = some "o2";
  closure_type = TradeEventType.other;
  pending_closure = true;
}

abbrev keeping : Client Fixed Value World
keeping = record (sample_client []) { active_positions = ("m", kept) ∷ [] }

abbrev kept_file : Value
kept_file = put_member "m" (position_json value_json kept) empty_object

abbrev file_json : Json Fixed Value
file_json = parsing (λ s. some kept_file)

load-positions_to_json_example :
    Returns
      (λ _ t.
        AreRestored keeping t
        × (t ≡ record keeping {
          active_positions = t.active_positions;
          positions_file = t.positions_file;
        }))
      ((positions_to_json file_json >> load_positions_from_json file_json) keeping)
unfolding position_json positions_json
load-positions_to_json_example =
    load-positions_to_json file_json (parsing-HasMembers _) (parsing-HasScalars _)
      (parsing-HasValues _) (parsing-HasItems _) keeping refl (tt, tt) (omega arith, tt) refl
