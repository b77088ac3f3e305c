-- ===== src/Tests.antt =====
-- The theorems applied to concrete inputs.
mod Wire
mod Topics
mod Brokers
mod Protocols
mod Servers
mod Clients
mod Loops
