-- ===== src/Broker.antt =====
-- src/broker.rs: the fan-out between connections.
pub mod Filter
pub mod Tree
pub mod State
