-- ===== src/Gateway.antt =====
-- internal/transport/inprocess_gateway.go: submitting the parts of a message, and turning delivery
-- receipts and mobile-originated messages into events. The two maps are association lists by key;
-- a handler holds the lock of a multipart state for all that it does with it.
pub mod Tables
pub mod Submit
pub mod Receipts
pub mod Aggregation
pub mod Failures
