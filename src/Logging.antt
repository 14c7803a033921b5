-- ===== src/Logging.antt =====
-- src/logging.rs. `Bucket` is the rate limiter over the doubles of `F64`, `Line` the format of the lines, `Banner` that of the
-- start, `Zone` the part of the terminal that is redrawn, `Human` the handler of the readable log,
-- `Body` the byte count behind each response.
pub mod F64
pub mod Bucket
pub mod Line
pub mod Banner
pub mod Zone
pub mod Human
pub mod Jsonl
pub mod Emit
pub mod Body
mod Tests
