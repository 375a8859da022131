-- ===== src/Storage.antt =====
-- models/storage.py: the caches, the files, the groups, the sessions, the slots and the players.
pub mod Files
pub mod Defs
pub mod SlotDefs
pub mod Slots
pub mod RoundTrip
pub mod Players
pub mod Start
pub mod Restart
pub mod Tests
