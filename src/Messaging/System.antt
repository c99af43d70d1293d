-- ===== src/Messaging/System.antt =====
-- backend/services/messaging/main.go as a whole: what its handlers, its connections and the goroutines behind
-- them keep of the router's state together. Tables holds the invariant of the database, Operations that of the
-- router, Runs the steps. The tables belong to this service alone here: what the admin service deletes from the
-- same file is modelled in Admin.
pub mod Tables
pub mod Calls
pub mod Lookups
pub mod Operations
pub mod Sending
pub mod Requests
pub mod Connections
pub mod Runs
