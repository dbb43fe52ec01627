-- ===== src/Host.antt =====
-- What the client asks of the system that it runs on and of the libraries that reach outside: the
-- clocks, random numbers, libcurl, the SDK's signature. Each answer may change the world.
use hl_cli.Prelude.{ℕ, Bool, Option, List, String, ℤ}
use hl_cli.Data.{OrderStatus}

-- What `execute_signed_request` hands to libcurl: the method, the URL, the headers in order and the
-- body (empty if none is set).
pub record HttpRequest : Type 0 where
  pub method : String
  pub url : String
  pub headers : List String
  pub body : String

-- The result of `curl_easy_init` and `curl_easy_perform`.
pub data CurlResult : Type 0 where
  no_handle : CurlResult
  failed : (message : String) → CurlResult
  response : (code : ℕ) (body : String) → CurlResult

pub record Host (W : Type 0) : Type 0 where
  pub system_ms : W → ℕ × W  -- system_clock, in milliseconds
  pub steady_ns : W → ℕ × W  -- steady_clock, in nanoseconds
  pub draw : ℕ → ℕ → W → ℕ × W  -- a draw of std::uniform_int_distribution<>
  pub jitter : W → ℕ × W  -- a draw for the back-off: 1.0 + dist(rng), in thousandths
  pub perform : HttpRequest → W → CurlResult × W
  pub is_connected : W → Bool  -- the order WebSocket of the SDK
  pub sleep_us : ℕ → W → W
  pub sign : String → String → String  -- generate_ed25519_signature
  pub decimal : ℤ → String  -- std::to_string of an integer
  pub stoll : String → Option ℤ  -- none: it throws
  pub stoull : String → Option ℕ  -- none: it throws
  pub order_status_text : OrderStatus → String  -- order_status_to_string of the SDK
