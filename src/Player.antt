-- ===== src/Player.antt =====
-- models/player.py: attributes, the character, its points and its inventory.
pub mod Attributes
pub mod Item
pub mod Access
pub mod Defs
pub mod Codec
pub mod Refund
pub mod Points
pub mod Vitals
pub mod Inventory
pub mod Tests
