-- ===== src/Service/History.antt =====
-- data_ingestion/backpack_data_service.cpp: `fetchHistorical`, which stores past klines once, and
-- the settings that the service reads from its environment.
use hl_cli.Prelude.{Option, none, some, List, [], ◌∷◌, String, str_append, if◌then◌else◌, ℤ}
use hl_cli.Double.{Double}
use hl_cli.Json.{Json}
use hl_cli.Host.{Host, HttpRequest, CurlResult, response}
use hl_cli.Machine.{M, ret, skip, try_catch, for_each, from_option, ◌>>=◌}
use hl_cli.Numbers.{or_default, times_1000}
use hl_cli.Service.Streams.{Service, enqueue, klines_query}

-- `getenv_or`, from the environment.
abbrev pub getenv_or : (String → Option String) → String → String → String
getenv_or env key default = or_default default (env key)

unfoldable pub build_conninfo : (String → Option String) → String
build_conninfo env = str_append "dbname=" (
    str_append (getenv_or env "POSTGRES_DB" "trading_data") (
      str_append " user=" (
        str_append (getenv_or env "POSTGRES_USER" "penrose") (
          str_append " password=" (
            str_append (getenv_or env "POSTGRES_PASSWORD" "") (
              str_append " host=" (
                str_append (getenv_or env "POSTGRES_HOST" "localhost")
                  (str_append " port=" (getenv_or env "POSTGRES_PORT" "5432")))))))))

-- The streams of `subscribeStreams`, in order.
abbrev pub streams_of : String → List String
streams_of symbol =
    str_append "trade." symbol
    ∷ str_append "liquidation." symbol
    ∷ str_append "kline.1m." symbol
    ∷ str_append "depth." symbol
    ∷ str_append "bookTicker." symbol
    ∷ []

-- The message of `subscribeStreams` at the time `now`.
unfoldable pub subscription : {D J : Type 0} (j : Json D J) → String → ℤ → J
subscription j symbol now =
    j.put "params" (j.of_strings (streams_of symbol))
      (j.put "id" (j.of_ℤ now) (j.put "method" (j.of_string "SUBSCRIBE") j.null))

-- `RestClient::get`, whatever the status.
abbrev pub body_of : CurlResult → Option String
body_of (response code body) = some body
body_of _ = none

module _ {D J W : Type 0} ⦃d : Double D⦄ (j : Json D J) (h : Host W) where
  -- One kline, of which only the time is stored: three values for a query of ten columns.
  unfoldable pub store_kline : String → J → M (Service D W) (Unit {0})
  store_kline pair v = do
    start ← from_option (if j.contains v "start" then j.get_int64 (j.field v "start") else none)
    enqueue j h pair (klines_query j h pair) (pair ∷ "1m" ∷ h.decimal (times_1000 start) ∷ [])

  unfoldable pub fetch_pair : String → M (Service D W) (Unit {0})
  fetch_pair pair s =
      let request : HttpRequest = record {
        method = "GET";
        url =
            str_append "https://api.backpack.exchange/api/v1/klines?symbol="
              (str_append pair "&interval=1m&limit=1000");
        headers = [];
        body = "";
      } in
      let (reply, w) = h.perform request s.world in
      elim (body_of reply) [
        | none ↦ ret tt (record s { world = w })
        | some body ↦
            try_catch
              (do v ← from_option (j.parse body); for_each (j.elements v) (store_kline pair))
              (λ e. skip) (record s { world = w })
      ]

  unfoldable pub fetch_historical : M (Service D W) (Unit {0})
  fetch_historical = for_each ("BTC_USDC_PERP" ∷ "ETH_USDC_PERP" ∷ []) fetch_pair
