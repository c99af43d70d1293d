-- ===== src/Admin.antt =====
-- backend/admin-api: the admin service. Store holds its tables and the database's calls, Auth the
-- administrators, their tokens and the middleware, Users, Roles, Departments, Devices, Channels and Logs the
-- handlers of a resource each, and Server the routes. Hub is the websocket hub, Monitoring the
-- overview of the platform, Observability the counters and the log of accesses.
pub mod Store
pub mod Auth
pub mod Logs
pub mod Users
pub mod Roles
pub mod Departments
pub mod Devices
pub mod Channels
pub mod Gateway
pub mod Hub
pub mod Monitoring
pub mod Observability
pub mod Server
pub mod System
mod Tests
