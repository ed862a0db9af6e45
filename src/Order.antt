-- ===== src/Order.antt =====
-- stampede/apps/order-service: the client of the inventory service, the HTTP handlers, the outbox
-- relay and the consumer of status events.
pub mod Client
pub mod Db
pub mod Handlers
pub mod Relay
pub mod Status
mod Tests
