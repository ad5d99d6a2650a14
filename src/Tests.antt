-- ===== src/Tests.antt =====
-- Concrete runs of the modelled code, and the theorems at concrete inputs.
mod Queues
mod Addresses
mod Protocol
mod Wire
mod Packets
mod Keys
mod Ends
mod Connections
mod Resources
mod Heartbeats
