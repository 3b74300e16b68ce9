-- ===== src/Http1.antt =====
-- echocorn/http1.py: errors, the chunked transfer coding, and the request head.
pub mod Fields
pub mod Error
pub mod Chunked
pub mod Head
pub mod Writer
pub mod Start
pub mod Drain
pub mod Reader
pub mod Dispatch
pub mod Response
mod Tests
