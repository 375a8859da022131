-- ===== src/DmEngine.antt =====
-- services/dm_engine.py.
pub mod Changes
pub mod Apply
pub mod Work
pub mod Users
pub mod Settle
pub mod Vitals
pub mod Story
pub mod Moments
pub mod Reply
pub mod Pattern
pub mod Tags
pub mod Clean
pub mod Tidy
pub mod Untagged
pub mod Takes
pub mod HpTag
pub mod HpRead
mod Tests
