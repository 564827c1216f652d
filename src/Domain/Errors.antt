-- ===== src/Domain/Errors.antt =====
-- The error enum of crates/ocr-domain/src/lib.rs, and the job states that one of its cases carries.

pub data JobState : Type 0 where
  accepted inspecting processing validating cancelling cancelled : JobState
  rejected partial review_required completed : JobState

pub data Error : Type 0 where
  invalid_confidence invalid_page_number invalid_page_geometry invalid_point : Error
  invalid_polygon missing_evidence invalid_document_id invalid_document_version : Error
  invalid_observation_id invalid_initial_job_state : Error
  invalid_job_transition : JobState → JobState → Error
  invalid_tenant_id invalid_product_id invalid_job_id invalid_upload_id : Error
  invalid_webhook_subscription_id invalid_idempotency_key invalid_request_digest : Error
  unsupported_result_schema_version invalid_stable_code invalid_table_id invalid_table : Error
  missing_document_evidence invalid_field_name invalid_processing_provenance invalid_cost : Error
  invalid_text_observation invalid_document_page invalid_page_workflow stale_page_task : Error
  invalid_memory_record_id invalid_memory_record_version invalid_embedding_version : Error
  invalid_semantic_collection invalid_semantic_query_scope invalid_chunk_id : Error
  invalid_vector_point_metadata : Error
