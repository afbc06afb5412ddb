-- ===== src/Gateway.antt =====
-- The gateway: the database's tables (shared/db.py), the message buffer, the channel registry and
-- the webhook (shared/gateway).
pub mod Db
pub mod Buffer
pub mod Channels
pub mod Setup
pub mod AgentSwitch
pub mod Commands
pub mod Webhook
pub mod Samples
