-- ===== src/WebSocket.antt =====
-- echocorn/websocket.py: frames, the close frame, the handshake headers, and the frame parser.
pub mod Outcome
pub mod Words
pub mod Text
pub mod Frame
pub mod Parser
mod Tests
