-- ===== src/RegisterTarget.antt =====
-- RegisterTarget.h: the client, which is a register target that sends each call to a server.
pub mod Exchange
pub mod Visit
pub mod Methods
pub mod Outcomes
pub mod Overflow
