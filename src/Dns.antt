-- ===== src/Dns.antt =====
-- Names in DNS messages (llarp/dns).
pub mod Name
pub mod Message
mod Tests
