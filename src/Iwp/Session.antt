-- ===== src/Iwp/Session.antt =====
-- `Session` of llarp/iwp/session.hpp and llarp/iwp/session.cpp.
pub mod State
pub mod Crypt
pub mod Send
pub mod Tick
pub mod Receive
pub mod Handshake
pub mod Frame
pub mod Fresh
pub mod Once
pub mod Acked
pub mod Macks
pub mod Timers
pub mod Expiry
pub mod Sealed
pub mod Auth
pub mod Untouched
pub mod Lims
pub mod Opening
pub mod Plaintext
pub mod Reachable
pub mod Whole
pub mod Total
mod Tests
