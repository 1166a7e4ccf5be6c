-- ===== src/Config.antt =====
-- llarp/config.
pub mod Ini
mod Tests
