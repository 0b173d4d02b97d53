-- ===== src/Bus.antt =====
-- The message bus, done_mod/mod_bus: the interface IMsgServer and its data (Api), Go's slices
-- (Slices) and the NATS server (Nats).
pub mod Api
pub mod Slices
pub mod Nats
