-- ===== src/Tests.antt =====
-- Runs of the model at concrete inputs: one module per part of the program.
pub mod Requests
pub mod Orders
pub mod Fills
pub mod Market
pub mod Quotes
pub mod Streams
pub mod Programs
