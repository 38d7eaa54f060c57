-- ===== src/Session.antt =====
-- The session of a tab: what AuthContext.tsx keeps in memory and what client.ts keeps in local
-- storage, over any interleaving of calls, replies and the user's own logging in and out.
pub mod Provider
pub mod Flight
pub mod Reach
pub mod Races
mod Tests
