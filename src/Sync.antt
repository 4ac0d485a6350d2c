-- ===== src/Sync.antt =====
-- sync.js, the client that every page of HQ shares: its logical clock, its WebSocket, its queue.
pub mod Lamport
pub mod Socket
pub mod Queue
pub mod Ops
mod Tests
