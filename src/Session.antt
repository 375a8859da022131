-- ===== src/Session.antt =====
-- models/session.py: the world, the story context, the history and the members of a session.
pub mod World
pub mod Story
pub mod Defs
pub mod Codec
pub mod Trim
pub mod WellFormed
pub mod Tests
