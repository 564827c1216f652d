-- ===== src/Service.antt =====
-- crates/ocr-service: the workers' side of the service.
pub mod PageRunner
pub mod Digest
pub mod OutboxRelay
