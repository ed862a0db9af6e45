-- ===== src/Gateway.antt =====
-- stampede/apps/edge-gateway/main.go: the hub of the WebSocket clients, and the reverse proxies.
pub mod Feed
pub mod Hub
pub mod Proxy
mod Tests
