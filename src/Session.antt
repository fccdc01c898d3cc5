-- ===== src/Session.antt =====
-- The state machine of a connection, as a user of the socket sees it, and the methods on it.
pub mod Spec
pub mod Checks
pub mod Runs
pub mod Guards
pub mod Farewell
pub mod Whole
