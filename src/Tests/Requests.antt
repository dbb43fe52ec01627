-- ===== src/Tests/Requests.antt =====
-- Runs of the signed requests of cpp_exec/exec_bridge.cpp and of what is built on them.
use hl_cli.Prelude.{◌≤◌, ◌+◌, ◌≡◌, refl, none, some, List, [], ◌∷◌, length, str_eq, if◌then◌else◌}
use hl_cli.Double.Fixed.{Fixed, fixed_double}
use hl_cli.Host.{CurlResult, response}
use hl_cli.Machine.{Returns}
use hl_cli.Rate.{RestClass}
use hl_cli.Rest.{error, execute_signed_request}
use hl_cli.Rest.Replies.{IsBacked, execute-IsBacked}
use hl_cli.Rest.Retry.{Sent, IsBusy, execute-Sent, execute-busy}
use hl_cli.Data.{buy, new, OrderType, TimeInForce}
use hl_cli.Client.{PollTask}
use hl_cli.Client.Poll.{poll_order_status}
use hl_cli.Client.Poll.Bounds.{poll_order_status_lem}
use hl_cli.Client.Poll.Costs.{Ends}
use hl_cli.Client.Bootstrap.{Sdk, bootstrap_order_cache}
use hl_cli.Client.Bootstrap.Cached.{Bootstrapped, bootstrap_order_cache_lem}
use hl_cli.Samples.{
  Value, member, element, text, real, empty_object, empty_array, value_json, scripted, busy_host,
  null_value, net_of, price_of, sample_client,
}

-- A server that is busy once, and then replies.
abbrev busy_once : List CurlResult
busy_once = response 429 "" ∷ response 200 "open" ∷ []

execute-Sent_example :
    Sent value_json scripted "key" "secret" "GET" "/api/v1/order" "orderQuery" null_value 1 4
      (net_of busy_once)
      (execute_signed_request value_json scripted RestClass.order_query "key" "secret" "GET"
        "/api/v1/order" "orderQuery" null_value
        (net_of busy_once)).1
execute-Sent_example =
    execute-Sent value_json scripted "key" "secret" "GET" "/api/v1/order" "orderQuery" null_value
      RestClass.order_query (net_of busy_once)

execute-IsBacked_example : IsBacked value_json scripted (
    execute_signed_request value_json scripted RestClass.order_query "key" "secret" "GET"
      "/api/v1/order" "orderQuery" null_value
      (net_of busy_once))
execute-IsBacked_example =
    execute-IsBacked value_json scripted "key" "secret" "GET" "/api/v1/order" "orderQuery"
      null_value RestClass.order_query (net_of busy_once)

abbrev sample_task : PollTask Fixed
sample_task = record {
  symbol = "SOL";
  order_id = "o1";
  original = record {
    symbol = "SOL";
    side = buy;
    type = OrderType.limit;
    quantity = price_of 2;
    price = price_of 100;
    time_in_force = TimeInForce.gtc;
  };
  model_id = "m";
}

poll_order_status_lem_example :
    Returns (Ends 24 (sample_client (response 200 "open" ∷ response 200 "filled" ∷ []))) (
      poll_order_status value_json scripted sample_task
        (sample_client (response 200 "open" ∷ response 200 "filled" ∷ [])))
poll_order_status_lem_example =
    poll_order_status_lem value_json scripted sample_task
      (sample_client (response 200 "open" ∷ response 200 "filled" ∷ [])) refl refl

always_busy : IsBusy value_json busy_host
always_busy r w = ("", refl)

execute-busy_example :
    let (r, n) =
      execute_signed_request value_json busy_host RestClass.trade "key" "secret" "POST"
        "/api/v1/order" "orderExecute" null_value
        (net_of []) in
    (r ≡ error "Max retries exceeded due to rate limiting")
    × (length n.requests ≡ 4 + 0)
    × (4 + 0 ≤ n.sent)
    × (n.sent ≤ 8 + 0)
execute-busy_example =
    execute-busy value_json busy_host always_busy "key" "secret" "POST" "/api/v1/order"
      "orderExecute" null_value RestClass.trade (net_of [])

-- The SDK knows one status.
abbrev sample_sdk : Sdk
sample_sdk = record {
  status_of = λ s. if str_eq s "NEW" then some new else none;
  side_of = λ s. none;
  type_of = λ s. none;
}

bootstrap_order_cache_lem_example :
    Returns
      (Bootstrapped value_json scripted sample_sdk "o1" (sample_client (response 200 "open" ∷ [])))
      (bootstrap_order_cache value_json scripted sample_sdk
        (sample_client (response 200 "open" ∷ [])))
bootstrap_order_cache_lem_example =
    bootstrap_order_cache_lem value_json scripted sample_sdk "o1"
      (sample_client (response 200 "open" ∷ [])) refl

-- A reply that lists one fill, of two units at 110.
abbrev filled_reply : Value
filled_reply = member "status" (text "FILLED") (
    member "fills"
      (element
        (member "qty" (real (price_of 2)) (member "price" (real (price_of 110)) empty_object))
        empty_array)
      empty_object)
