-- ===== src/Utils.antt =====
-- echocorn/utils.py, what several protocols share: authorities, headers, the response and its
-- compression, the log, and the exchange with an application.
pub mod Authority
pub mod Headers
pub mod Response
pub mod Log
pub mod Asgi
mod Tests
