-- ===== src/Infrastructure/Sync.antt =====
-- The synchronisation of state through Redis, backend/infrastructure/state_sync.py.
pub mod Buffer
pub mod Fifo
pub mod Replicas
pub mod Resync
pub mod RoundTrip
pub mod Draining
pub mod Locks
mod Examples
