-- ===== src/Server.antt =====
-- The server's parts: the handlers of the session, the handler of a move, and the dispatcher.
pub mod Session
pub mod Turn
pub mod Verdict
pub mod Outcome
pub mod Dispatch
pub mod Consistent
pub mod Reach
pub mod Scenario
mod Tests
