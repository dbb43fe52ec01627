-- ===== src/Rest.antt =====
-- cpp_exec/exec_bridge.cpp: the signed REST requests, `execute_signed_request`, with its retries,
-- and `get_server_time`. What these `const` methods change is the record `Net`: the rate limiter,
-- the static variables, the counters and the world outside. A result is a value or an exception.

pub mod Replies
pub mod Retry
use Prim.Native.Nat.{max, min}
use hl_cli.Prelude.{
  ℕ, zero, suc, ◌+◌, ◌-◌, ◌*◌, ◌/◌, ◌^◌, Bool, true, false, not, ◌&&◌, ◌||◌, Option, none, some,
  List, [], ◌∷◌, String, str_eq, ltb, leb, ◌==◌, if◌then◌else◌, is_empty_text, ℤ, pos, ◌+ℤ◌, ltb_ℤ,
  pos_part,
}
use hl_cli.Json.{Json}
use hl_cli.Host.{Host, HttpRequest, CurlResult, no_handle, failed, response}
use hl_cli.Query.{◌&◌, json_to_sorted_query_string, request_body}
use hl_cli.Rate.{RestClass, TokenBucket, rate_limit}

pub data Result (A : Type 0) : Type 0 where
  ok : A → Result A
  error : String → Result A

-- `requests` lists the requests that were signed, the latest first, whether or not libcurl then
-- gave a handle to send them with; `sent` counts the requests that were sent, those for the
-- server's time too; `cached_server_time` and `last_fetch` (in nanoseconds) are the static
-- variables of `get_server_time`, `bucket` the global `buckets`.
pub record Net (W : Type 0) : Type 0 where
  pub cached_server_time : ℤ
  pub last_fetch : ℕ
  pub bucket : RestClass → TokenBucket
  pub backoff_events : ℕ
  pub retry_elapsed_ms_sum : ℕ
  pub requests : List HttpRequest
  pub sent : ℕ
  pub world : W

abbrev pub same_class : RestClass → RestClass → Bool
same_class RestClass.trade RestClass.trade = true
same_class RestClass.order_query RestClass.order_query = true
same_class RestClass.meta RestClass.meta = true
same_class _ _ = false

abbrev has_body : String → Bool
has_body method = str_eq method "POST" || str_eq method "PUT"

time_request : HttpRequest
time_request = record {
  method = "GET";
  url = "https://api.backpack.exchange/api/v1/time";
  headers = [];
  body = "";
}

-- The wait after a 429: as long as the server asks, or a back-off that doubles with each attempt,
-- jittered, of at least a millisecond and at most a second (`base_backoff_ms_config` 100,
-- `max_backoff_ms_config` 1000; here in microseconds).
unfoldable pub backoff_us : ℕ → ℕ → ℕ
backoff_us attempt jitter = min (max (100 * 2 ^ attempt * jitter) 1000) 1_000_000

abbrev set_bucket : RestClass → TokenBucket → (RestClass → TokenBucket) → RestClass → TokenBucket
set_bucket cls b buckets k = if same_class cls k then b else buckets k

-- How many requests an answer of libcurl stands for: without a handle nothing is sent.
abbrev pub cost : CurlResult → ℕ
cost no_handle = 0
cost _ = 1

-- `max_retries_config`
abbrev pub max_retries : ℕ
max_retries = 3

module _ {D J W : Type 0} (j : Json D J) (h : Host W) where
  unfoldable pub sign_request : String → String → String
  sign_request private_key text = if is_empty_text private_key then "" else h.sign private_key text

  system_time : Net W → ℤ × Net W
  system_time n = let (ms, w) = h.system_ms n.world in (pos ms, record n { world = w })

  -- The timestamp of a reply of the time server.
  server_timestamp : CurlResult → Option ℤ
  server_timestamp no_handle = none
  server_timestamp (failed message) = none
  server_timestamp (response code body) =
      if code == 200
      then (elim (j.parse body) [
        | none ↦ none
        | some v ↦ if j.contains v "timestamp" then j.get_int64 (j.field v "timestamp") else none
      ])
      else none

  -- The server's time, from the cache while that is less than 30 seconds old.
  unfoldable pub get_server_time : Net W → ℤ × Net W
  unfolding system_time time_request server_timestamp
  get_server_time n =
      let (now, w) = h.steady_ns n.world in
      let elapsed = (now - n.last_fetch) / 1_000_000_000 in
      let (reply, w') = h.perform time_request w in
      if ltb_ℤ (pos 0) n.cached_server_time && ltb elapsed 30
      then (n.cached_server_time +ℤ pos (elapsed * 1000), record n { world = w })
      else (elim (server_timestamp reply) [
        | none ↦ system_time (record n { sent = n.sent + cost reply; world = w' })
        | some t ↦ (
          t,
          record n {
            cached_server_time = t;
            last_fetch = now;
            sent = n.sent + cost reply;
            world = w';
          },
        )
      ])

  -- What is signed: for POST and PUT the JSON body, else the sorted query.
  unfoldable pub message_to_sign : String → String → J → String → String
  message_to_sign method instruction params timestamp =
      if has_body method && (not (j.is_null params) && j.is_object params)
      then "instruction=" & instruction & "&" & request_body j params & timestamp & "5000"
      else ("instruction="
          & instruction
          & "&"
          & json_to_sorted_query_string j params
          & "&timestamp="
          & timestamp
          & "&window="
          & "5000")

  -- The request of one round, at the time `timestamp`.
  unfoldable pub signed_request :
      String → String → String → String → String → J → String → HttpRequest
  unfolding message_to_sign sign_request
  signed_request api_key private_key method endpoint instruction params timestamp =
      let signature =
        sign_request private_key (message_to_sign method instruction params timestamp) in
      let query =
        if str_eq method "GET" || str_eq method "DELETE"
        then json_to_sorted_query_string j params
        else "" in
      let base = "https://api.backpack.exchange" & endpoint in
      record {
        method = method;
        url = if is_empty_text query then base else base & "?" & query;
        headers =
            ("X-API-KEY: " & api_key)
            ∷ ("X-TIMESTAMP: " & timestamp)
            ∷ ("X-WINDOW: " & "5000")
            ∷ ("X-SIGNATURE: " & signature)
            ∷ ("X-INSTRUCTION: " & instruction)
            ∷ ("X-Backpack-API-Key: " & api_key)
            ∷ ("X-Backpack-Timestamp: " & timestamp)
            ∷ ("X-Backpack-Window: " & "5000")
            ∷ ("X-Backpack-Signature: " & signature)
            ∷ ("X-Backpack-Instruction: " & instruction)
            ∷ (if has_body method then "Content-Type: application/json" ∷ [] else []);
        body =
            if has_body method && (not (j.is_null params) && j.is_object params)
            then request_body j params
            else "";
      }

  -- What a reply other than "429 Too Many Requests" comes to.
  unfoldable pub read_response : ℕ → String → Result J
  read_response code body =
      if leb 200 code && ltb code 300
      then (if is_empty_text body
          then ok j.object
          else elim (j.parse body) [ none ↦ error "parse_error" | some v ↦ ok v ])
      else (elim (j.parse body) [
        | none ↦ error ("API Error (non-JSON response): " & h.decimal (pos code) & " - " & body)
        | some v ↦
            if j.is_object v || j.is_null v
            then error ("API Error: " & j.dump (j.put "http_status_code" (j.of_ℤ (pos code)) v))
            else error "type_error"
      ])

  -- The time that a 429 asks to wait, in milliseconds, if it does.
  retry_after : String → ℕ
  retry_after body = elim (j.parse body) [
    | none ↦ 0
    | some v ↦
        if j.contains v "retry_after"
        then elim (j.get_int64 (j.field v "retry_after")) [ none ↦ 0 | some ms ↦ pos_part ms ]
        else 0
  ]

  pause : ℕ → Net W → Net W
  pause us n = if us == 0 then n else record n { world = h.sleep_us us n.world }

  unfoldable pub back_off : ℕ → String → Net W → Net W
  unfolding retry_after pause backoff_us
  back_off attempt body n =
      let n' = record n { backoff_events = n.backoff_events + 1 } in
      let ra = retry_after body in
      if ltb 0 ra
      then (let slept = pause (ra * 1000) n' in
          record slept { retry_elapsed_ms_sum = slept.retry_elapsed_ms_sum + ra })
      else (let (jitter, w) = h.jitter n'.world in
          let us = backoff_us attempt jitter in
          let slept = pause us (record n' { world = w }) in
          record slept { retry_elapsed_ms_sum = slept.retry_elapsed_ms_sum + us / 1000 })

  -- `rate_limit(cls)`, by one thread alone.
  unfoldable pub limit_rate : RestClass → Net W → Net W
  unfolding pause
  limit_rate cls n =
      let (now, w) = h.steady_ns n.world in
      let (b, wait) = rate_limit (now / 1000) (n.bucket cls) in
      pause wait (record n { bucket = set_bucket cls b n.bucket; world = w })

  -- One round: the reply to a freshly signed request.
  unfoldable pub ask : String → String → String → String → String → J → Net W → CurlResult × Net W
  ask api_key private_key method endpoint instruction params n =
      let (t, n') = get_server_time n in
      let request =
        signed_request api_key private_key method endpoint instruction params (h.decimal t) in
      let (reply, w) = h.perform request n'.world in
      (
        reply,
        record n' { requests = request ∷ n'.requests; sent = n'.sent + cost reply; world = w },
      )

  -- What follows a reply: after a 429 the client waits, and goes on with `again`.
  abbrev pub settle : ℕ → (Net W → Result J × Net W) → CurlResult × Net W → Result J × Net W
  settle attempt again (no_handle, n) = (error "Failed to initialize CURL", n)
  settle attempt again (failed message, n) = (error ("CURL request failed: " & message), n)
  settle attempt again (response code body, n) = elim (code == 429) [
    | true ↦ again (back_off attempt body n)
    | false ↦ (read_response code body, n)
  ]

  abbrev pub give_up : Net W → Result J × Net W
  give_up n = (error "Max retries exceeded due to rate limiting", n)

  -- The loop of `execute_signed_request`: `left` attempts may follow this one.
  unfoldable pub attempts :
      (left attempt : ℕ) → String → String → String → String → String → J → Net W → Result J × Net W
  attempts zero attempt api_key private_key method endpoint instruction params n =
      settle attempt give_up (ask api_key private_key method endpoint instruction params n)
  attempts (suc left) attempt api_key private_key method endpoint instruction params n =
      settle attempt
        (attempts left (suc attempt) api_key private_key method endpoint instruction params)
        (ask api_key private_key method endpoint instruction params n)

  unfoldable pub execute_signed_request :
      RestClass → String → String → String → String → String → J → Net W → Result J × Net W
  execute_signed_request cls api_key private_key method endpoint instruction params n =
      attempts max_retries 0 api_key private_key method endpoint instruction params
        (limit_rate cls n)
