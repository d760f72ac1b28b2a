-- ===== src/Examples.antt =====
-- Concrete inputs for the theorems, and what the theorems say of them.
pub mod Data
pub mod Codes
pub mod Digests
pub mod Reloads
pub mod Signing
pub mod Calls
pub mod Links
pub mod Loop
