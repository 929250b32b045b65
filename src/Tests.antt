-- ===== src/Tests.antt =====
-- The theorems at concrete inputs, and runs of the definitions.
mod Buffers
mod Packets
mod Routing
mod Sets
mod Secrets
mod Receipts
mod Settings
mod Announces
mod Links
mod Sessions
mod Transfers
mod Identities
mod Requests
mod Relays
mod Queues
