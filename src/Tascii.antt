-- ===== src/Tascii.antt =====
-- The task runtime, src/tascii/src.
pub mod OneShot
pub mod Message
pub mod Runtime
pub mod Scheduler
pub mod Context
