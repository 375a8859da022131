-- ===== src/Commands.antt =====
-- class TRPGCommand of components/commands.py: the handlers of the `/trpg` command.
pub mod Defs
pub mod Play
pub mod Join
pub mod Words
pub mod Character
pub mod Items
pub mod World
pub mod Slot
pub mod Rolls
pub mod Status
pub mod Machine
pub mod Moves
pub mod Life
pub mod Joining
mod Tests
