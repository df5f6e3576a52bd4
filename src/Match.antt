-- ===== src/Match.antt =====
-- The match manager (server/match_manager.h, server/match_manager.c): the queue of waiting players,
-- the table of games, the chess clocks. Every operation of the C code holds the manager's mutex from
-- its first access to its last, so an operation is one step here. The clock's readings and the
-- outcome of sending enter as arguments.
mod State
mod Joining
mod Removal
unfoldable pub use State.*
unfoldable pub use Joining.*
unfoldable pub use Removal.*
pub mod Clock
pub mod Leave
pub mod Slots
pub mod Positions
pub mod Counts
pub mod Pairing
pub mod SelfMatch
pub mod Timeouts
mod Tests
