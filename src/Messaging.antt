-- ===== src/Messaging.antt =====
-- backend/services/messaging/main.go.
pub mod Store
pub mod Queries
pub mod Dm
pub mod Access
pub mod Clients
pub mod Handlers
pub mod System
pub mod Server
mod Tests
