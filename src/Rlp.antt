-- ===== src/Rlp.antt =====
-- libdevcore/RLP.h, RLP.cpp and the big-endian helpers of libdevcore/CommonData.h.
pub mod Integer
pub mod Reader
pub mod Stream
pub mod Item
pub mod Index
mod Examples
