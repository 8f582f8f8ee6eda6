-- ===== src/StateDb.antt =====
-- Where the state is kept: nodes in memory, libdevcore/MemoryDB.h and MemoryDB.cpp, over a database
-- on disk, libdevcore/OverlayDB.cpp.
pub mod Memory
pub mod Overlay
pub mod Nibbles
mod Examples
