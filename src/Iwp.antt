-- ===== src/Iwp.antt =====
-- The link protocol of llarp/iwp: packets, message buffers and the session that joins them.
pub mod Packet
pub mod Acks
pub mod Inbound
pub mod Outbound
pub mod Agreement
pub mod Reassembly
pub mod Delivery
pub mod Session
mod Tests
