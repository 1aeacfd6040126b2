-- ===== src/Update.antt =====
-- The updates of the client.
pub mod Health
