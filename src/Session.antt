-- ===== src/Session.antt =====
-- The session's TCP side (core/src/session.cpp).
pub mod Framing
pub mod Commands
pub mod Control
