-- ===== src/Util.antt =====
-- The containers of llarp/util.
pub mod DecayingHashSet
pub mod DecayingHashTable
pub mod Codel
pub mod QueueManager
pub mod Queue
pub mod Buffer
pub mod Bencode
mod Tests
