-- ===== src/Dht.antt =====
-- The distributed hash table of llarp/dht.
pub mod Key
pub mod Bucket
mod Tests
