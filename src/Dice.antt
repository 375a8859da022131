-- ===== src/Dice.antt =====
-- services/dice.py: the dice service.
pub mod Random
pub mod Parse
pub mod Roll
pub mod Check
pub mod Bounds
pub mod Terms
pub mod Agree
pub mod Checks
mod Tests
