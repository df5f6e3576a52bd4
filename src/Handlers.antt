-- ===== src/Handlers.antt =====
-- What the client does on each message of the server (client/handlers/). Logging and the drawing of
-- a dialog are left out.
mod Notices
mod Endings
mod MoveBroadcast
mod Dispatch
pub mod Bounds
pub mod Fits
pub mod Resignation
mod Tests
unfoldable pub use Notices.*
unfoldable pub use Endings.*
unfoldable pub use MoveBroadcast.*
unfoldable pub use Dispatch.*
