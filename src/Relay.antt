-- ===== src/Relay.antt =====
-- tools/ws_relay.py: a relay between two sockets that logs the headers of WebSocket frames. Bytes are
-- numbers below 256. `Frame` reads one frame, `Stream` is `parse_frames` and `pump`, and `Http` is
-- `read_http_head` and `handle`.
pub mod Frame
pub mod Stream
pub mod Http
mod Tests
