-- ===== src/Outbox.antt =====
-- The transactional outbox of the order service and the catalog service. Both have the same table
-- `outbox` and the same three statements (internal/sqlcgen/query.sql.go of either), and a relay with
-- the same skeleton. A table is the list of its rows, in the order of their insertion; the payload
-- is of any type, and a UUID is the number that its 16 bytes spell.
pub mod Table
pub mod Relay
