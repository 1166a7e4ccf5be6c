-- ===== src/Consensus.antt =====
-- What a service node does for the consensus on its peers, in llarp/consensus.
pub mod Reachability
mod Tests
