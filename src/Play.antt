-- ===== src/Play.antt =====
-- A move from the click to both boards: client/ui/input.c, client/client_network.c,
-- server/handlers/move.c, client/handlers/move.c.
pub mod Follow
pub mod Clicked
mod Tests
