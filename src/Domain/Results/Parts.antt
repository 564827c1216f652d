-- ===== src/Domain/Results/Parts.antt =====
-- The parts of a document's result, in crates/ocr-domain/src/lib.rs.
use document_intelligence.Base.{◌≡◌, refl, List, Option, none, some, arith}
use document_intelligence.Base.Text.{codes}
use document_intelligence.Domain.Ids.{DocumentId, DocumentVersion}
use document_intelligence.Domain.Pages.{DocumentPage}
use document_intelligence.Domain.Documents.{ProcessingProvenance}
use document_intelligence.Domain.Results.{DocumentResult, DocumentResultPayload, result_of}

module _ {ℓ} {Value : Type ℓ} where
  -- The four parts of a provenance, or nothing.
  abbrev HasProvenance : Option ProcessingProvenance → DocumentResult Value → Type 0
  HasProvenance none r =
      (r.provider ≡ none)
      × (r.model_version ≡ none)
      × (r.processing_profile_version ≡ none)
      × (r.duration_ms ≡ none)
  HasProvenance (some p) r =
      (r.provider ≡ some p.provider)
      × (r.model_version ≡ some p.model_version)
      × (r.processing_profile_version ≡ some p.processing_profile_version)
      × (r.duration_ms ≡ some p.duration_ms)

  -- The parts of a result other than its pages are those of the payload, each under its name.
  pub record HasParts (document_id : DocumentId) (document_version : DocumentVersion)
      (payload : DocumentResultPayload Value) (r : DocumentResult Value) : Type ℓ where
    pub schema_version_is : r.schema_version ≡ codes "1.0"
    pub document_id_is : r.document_id ≡ document_id
    pub document_version_is : r.document_version ≡ document_version
    pub text_is : r.text ≡ payload.text
    pub markdown_is : r.markdown ≡ payload.markdown
    pub fields_is : r.fields ≡ payload.fields
    pub tables_is : r.tables ≡ payload.tables
    pub confidence_is : r.confidence ≡ payload.confidence
    pub citations_is : r.citations ≡ payload.citations
    pub warnings_is : r.warnings ≡ payload.warnings
    pub validation_failures_is : r.validation_failures ≡ payload.validation_failures
    pub provenance_is : HasProvenance payload.provenance r
    pub cost_is : r.cost ≡ payload.cost

  pub result_of-HasParts :
      (id : DocumentId) (version : DocumentVersion) (payload : DocumentResultPayload Value)
      (ps : List DocumentPage)
      → HasParts id version payload (result_of id version payload ps)
  result_of-HasParts id version payload ps = record {
    schema_version_is = refl;
    document_id_is = refl;
    document_version_is = refl;
    text_is = refl;
    markdown_is = refl;
    fields_is = refl;
    tables_is = refl;
    confidence_is = refl;
    citations_is = refl;
    warnings_is = refl;
    validation_failures_is = refl;
    provenance_is = provenance payload.provenance;
    cost_is = refl;
  }
    where
      provenance :
          (o : Option ProcessingProvenance)
          → HasProvenance o (result_of id version (record payload { provenance = o }) ps)
      provenance none = (refl, refl, refl, refl)
      provenance (some p) = (refl, refl, refl, refl)

  -- The parts make the result.
  pub HasParts-result_of :
      (id : DocumentId) (version : DocumentVersion) (payload : DocumentResultPayload Value)
      (r : DocumentResult Value)
      → HasParts id version payload r
      → result_of id version payload r.pages ≡ r
  HasParts-result_of id version payload r h = ground (arith, h)
