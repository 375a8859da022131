-- ===== src/Modules.antt =====
-- The adventure modules: modules/base.py and modules/loader.py.
pub mod Base
pub mod Loader
pub mod Reload
pub mod Tests
