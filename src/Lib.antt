-- ===== src/Lib.antt =====
-- HL-cli, a trading bot for the Backpack exchange: its execution engine (cpp_exec of the
-- repository, with the types of include/backpack), the programs that feed it with quotes, and the
-- data service.
--
-- One class, `DefaultExecutionClient` of cpp_exec/exec_bridge.hpp, is the heart of it. Quotes reach
-- it from Redis (`handleL1Update`), where redis_l1_feeder/main.cpp publishes them; each leads it to
-- read the file of ML signals. Ticks and signals lead it to send orders (`onTick`,
-- `check_for_new_signal`, `send_order`); every order is a signed REST request
-- (`execute_signed_request`) that first asks a rate limiter for a slot; the exchange's order
-- updates come back over a WebSocket (`processSdkOrderUpdate`) or are polled (`poll_order_status`);
-- a sweeper and a circuit breaker cancel orders (`sweeperThread`, `enforceOpenOrderLimit`). A ring
-- buffer, a risk manager and the indicators stand on their own. cpp_exec/redis_client.cpp keeps an
-- order book and publishes it; data_ingestion/backpack_data_service.cpp stores the exchange's
-- streams in Postgres through a queue and a pool of connections; data_ingestion/redis_pubsub.hpp is
-- a queue of messages to Redis.
--
-- The modules, and the code that each is about:
--   Ring: cpp_exec/ring_buffer.hpp. `try_enqueue` and `try_dequeue` over the two indices.
--   Rate: `rate_limit` and `precise_sleep_us` of cpp_exec/exec_bridge.cpp. Rate.Slots has the
--     compare-and-swap loop of several threads as a step relation.
--   Rest: `execute_signed_request`, `get_server_time`, `sign_request`; `requests` lists the
--     requests that were signed, `sent` counts all that libcurl performed, those for the time
--     included. Query: the query and the body, `json_to_sorted_query_string`.
--   Numbers: `json_get_double`, `json_get_int64`, `to_ms`.
--   Uuid: `generate_uuid_v4`.
--   Data: the structures and enumerations of exec_bridge.hpp and backpack_client.hpp.
--   Client: the state of `DefaultExecutionClient`. Its methods are in Client.Events (the log of
--     trade events), Client.OpenOrders (`openOrders_`, its breaker, its sweeper, the
--     cancellations), Client.Updates (`processSdkOrderUpdate`), Client.Sizes, Client.Payload and
--     Client.Send (`send_order` and its callers), Client.Ticks (`onTick`), Client.Poll
--     (`poll_order_status`), Client.Fills (`process_fill_response`), Client.Positions
--     (positions.json, and in its child Items the members that a reader goes over), Client.Ladder
--     (the ladder entry and its stop), Client.Bootstrap (`bootstrapOrderCache`), Client.OrderSocket
--     (the handlers of `setupOrderWebSocket`, its error handler, `stop`), Client.Quotes
--     (`handleL1Update`, `publishL1Update`, `read_signal_file`), Client.Maker (`postOnlyMaker`) and
--     Client.Start (the constructor).
--   Risk: cpp_exec/risk_manager.hpp and risk_manager.cpp. Indicators: cpp_exec/indicators.hpp.
--   Levels: a level of a book, as the exchange sends it. Feeder: redis_l1_feeder/main.cpp.
--   Startup: cpp_exec/main.cpp, up to the client that it makes. Predictor:
--     cpp_exec/low_latency_predictor.cpp, whose inference loop takes market data out of a ring.
--   Feed: cpp_exec/redis_client.cpp (`OrderBook`, `handle_message`, `push_snapshot`).
--   PubSub: data_ingestion/redis_pubsub.hpp (`RedisPubSub`) and redis_message.hpp
--     (`MessageSerializer`).
--   Service: data_ingestion/backpack_data_service.cpp. Service.Pool is `PgPool`, Service.Writer
--     `AsyncDBWriter`, Service.Split `split`, Service.Book `OrderBookCache`, Service.Streams and
--     Service.Klines the handlers of `BackpackDataService`, Service.History its `fetchHistorical`.
--   Prelude, Double, Json, Host and Machine are shared; Samples and the modules Tests hold concrete
--     data and runs.
--
-- A method that changes the state is a function of the monad `Machine.M`: it returns, throws an
-- exception, or is stuck because its thread locks a mutex that it holds itself (or, in the two
-- programs that read messages unchecked, because the behaviour is undefined). `Client.held` says
-- which mutexes the running thread holds; a `std::mutex` is not recursive. Each method runs as one
-- thread. The interleavings of threads are step relations where they matter: in the rate limiter
-- (Rate.Slots), the order WebSocket (Client.OrderSocket.Armed), the message queue (PubSub.Ordered),
-- the writer's queue (Service.Writer.Queue) and the predictor. Logging has no effect here, and a
-- thread can always be started.
--
-- Parameters, for what the code calls but does not contain: `Double` (IEEE doubles; `IsOrdered`
-- states the laws of comparison, `Double.Fixed` meets them), `Json` (nlohmann::json), `Host` (the
-- clocks, random numbers, libcurl, the SDK's signature and connection), `Redis` and `Bus` (Redis),
-- `Sdk`, `to_json` and `create_order` of the SDK, `Database` (libpqxx), and the functions
-- `publish`, `subscribe` and `environment` where they are arguments. A call that throws gives
-- `none` there. `HasMembers`, `HasScalars`, `HasValues` and `HasItems` state that JSON which is
-- written can be read again.
--
-- Bounds and fuel: `attempts` runs for `max_retries` rounds after the first, `poll_loop` for three,
-- `ladder_attempts` for three, as the loops of the code do; `count_decimals` for eight. No other
-- definition has fuel. Numbers are natural numbers and integers; where the code's width matters
-- (Rate, `as_u64`) the wrap-around is written out. Times of the clocks are natural numbers.
--
-- Not modelled, for it is glue around the parts above or calls of libraries: the loop that calls
-- the Redis subscriber's `consume` again after an error, `onTrade` and `onKline` (which log), the
-- TLS and WebSocket connections, the Prometheus metrics, the zstd compressor, LightGBM, the Python
-- bindings, the CPU and network settings, the rest of the `main` functions, the test programs;
-- `url_encode` and `base64_encode`, which nothing calls. include/nlohmann/json.hpp is a copy of a
-- library.
pub mod Prelude
pub mod Double
pub mod Json
pub mod Host
pub mod Uuid
pub mod Machine
pub mod Ring
pub mod Rate
pub mod Query
pub mod Rest
pub mod Numbers
pub mod Data
pub mod Startup
pub mod Predictor
pub mod Levels
pub mod Feeder
pub mod Service
pub mod PubSub
pub mod Feed
pub mod Client
pub mod Indicators
pub mod Risk
pub mod Samples
pub mod Tests
