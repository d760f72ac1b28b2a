-- ===== src/Openbridge.antt =====
-- openbridge/: the OpenBridge side.
pub mod Const
pub mod Mux
pub mod Datagrams
