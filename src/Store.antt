-- ===== src/Store.antt =====
-- crates/ocr-store/src/lib.rs: the relational store. Each operation runs in one transaction, so it
-- is a function from the tables to the tables and its result, and the tables of a failed
-- transaction are those it began with. The scope, a product with a tenant, is an argument, and the
-- time of a transaction, `now()`, is an argument too.
pub mod Values
pub mod Validation
pub mod Geometries
pub mod Artifacts
pub mod Tables
pub mod Transactions
pub mod WorkScopes
pub mod Uploads
pub mod Jobs
pub mod PageWorkflows
pub mod Lifecycle
pub mod Outbox
pub mod Tests
