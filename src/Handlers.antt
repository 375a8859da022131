-- ===== src/Handlers.antt =====
-- components/handlers.py.
pub mod Collector
pub mod Missing
pub mod Reading
pub mod Rounds
pub mod Execute
pub mod Response
pub mod Retries
pub mod Answers
pub mod Passing
mod Tests
