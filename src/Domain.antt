-- ===== src/Domain.antt =====
-- crates/ocr-domain: the provider-neutral contracts of the service.
pub mod Errors
pub mod JobLifecycle
pub mod Ids
pub mod Geometry
pub mod Pages
pub mod Documents
pub mod Results
pub mod SemanticMemory
