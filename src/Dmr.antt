-- ===== src/Dmr.antt =====
-- dmr/: the DMR codes. Each child is one source file.
pub mod Bits
pub mod Const
pub mod Hamming
pub mod Golay
pub mod Crc
pub mod Rs129
pub mod Bptc
pub mod Emblc
pub mod Ambe
