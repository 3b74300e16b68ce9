-- ===== src/Redirect.antt =====
-- echocorn/redirect.py: the listener that answers every plaintext request with a redirect.
pub mod Location
pub mod Reply
pub mod Protocol
mod Tests
