-- ===== src/Clients.antt =====
-- The clients of the daemon, src/push.rs and src/stop.rs. The path of the socket is what the operating
-- system connects to; the text of an I/O error is the standard library's.
pub mod Texts
pub mod Push
pub mod Stop
pub mod Conversation
mod Tests
