-- ===== src/Cccc.antt =====
-- cccc/: the CC-CC side.
pub mod Ambe
pub mod Const
pub mod Text
pub mod Lines
pub mod Signals
pub mod Link
pub mod Connect
pub mod Mux
pub mod Pending
pub mod Traffic
pub mod Steps
pub mod Sound
pub mod Arrival
pub mod Silence
pub mod Voice
pub mod Refusal
