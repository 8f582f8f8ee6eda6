-- ===== src/Pbft.antt =====
-- The consensus engine, libpbftseal/PBFT.h, PBFT.cpp, Common.h and PBFTPeer.h.
pub mod Msg
pub mod Wire
pub mod State
pub mod Peers
pub mod Caches
pub mod Leader
pub mod Invariant
pub mod Sending
pub mod Commit
pub mod ViewChange
pub mod Prepare
pub mod Handlers
pub mod BlockSign
pub mod Engine
mod Examples
