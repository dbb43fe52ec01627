-- ===== src/Service.antt =====
-- data_ingestion/backpack_data_service.cpp: the service that stores the exchange's streams in
-- Postgres and publishes the best prices on Redis.
pub mod Pool
pub mod Writer
pub mod Split
pub mod Book
pub mod Klines
pub mod Streams
pub mod History
