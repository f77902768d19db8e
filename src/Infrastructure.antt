-- ===== src/Infrastructure.antt =====
-- The failover managers of backend/infrastructure: cluster nodes, brokers, internet connections.
pub mod Selection
pub mod Nodes
pub mod Failover
pub mod Connections
pub mod Internet
pub mod Broker
pub mod Documents
pub mod Alerts
pub mod Cluster
pub mod Sync
pub mod Persistence
pub mod Power
pub mod Balancer
pub mod Pool
mod Examples
