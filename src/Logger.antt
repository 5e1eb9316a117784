-- ===== src/Logger.antt =====
-- The client library: class InfoLogger of src/InfoLogger.cxx.
pub mod Options
pub mod History
pub mod Compose
pub mod Flood
pub mod State
pub mod Push
pub mod AutoMute
pub mod Api
