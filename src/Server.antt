-- ===== src/Server.antt =====
-- The server: pkg/dispatcher, the request parser of pkg/webhooks/utils, and cmd/main.go.
pub mod Request
pub mod Dispatcher
pub mod Main
