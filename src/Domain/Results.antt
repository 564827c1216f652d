-- ===== src/Domain/Results.antt =====
-- The result of a document and its stored form, from crates/ocr-domain/src/lib.rs. `content_trust`
-- has one value, which the model leaves out. A map is the list of its entries in the order of
-- their keys, and the JSON value of an extracted field is of a type that the definitions take.
pub mod Parts
pub mod Laws
pub mod Tests
use mathlib.Core.Option as Option
use document_intelligence.Base.{
  ℕ, Bool, true, false, ◌&&◌, ◌||◌, not, List, [], ◌∷◌, Option, none, some, if◌then◌else◌, ltb,
  ◌==◌, any, length, Result, ok, err, ◌>>=◌, sort_by_key,
}
use document_intelligence.Base.Text.{Str, codes, len, is_empty, str_eq}
use document_intelligence.Domain.Errors.{
  Error, invalid_processing_provenance, missing_document_evidence, invalid_field_name,
  invalid_document_page, unsupported_result_schema_version,
}
use document_intelligence.Domain.Ids.{DocumentId, DocumentVersion, StableCode}
use document_intelligence.Domain.Pages.{Evidence, DocumentPage}
use document_intelligence.Domain.Documents.{
  ExtractedValue, DocumentTable, ConfidenceDimensions, ValidationFailure, ProcessingProvenance,
  Cost, new_processing_provenance,
}
use document_intelligence.PageWorkflow.{maximum_page_count}

abbrev result_schema_version : Str
result_schema_version = codes "1.0"

pub record DocumentResultPayload {ℓ} (Value : Type ℓ) : Type ℓ where
  pub text : Str
  pub markdown : Str
  pub pages : List DocumentPage
  pub fields : List (Str × ExtractedValue Value)
  pub tables : List DocumentTable
  pub confidence : Option ConfidenceDimensions
  pub citations : List Evidence
  pub warnings : List StableCode
  pub validation_failures : List ValidationFailure
  pub provenance : Option ProcessingProvenance
  pub cost : Option Cost

-- `RawDocumentResult` has the same fields.
pub record DocumentResult {ℓ} (Value : Type ℓ) : Type ℓ where
  pub schema_version : Str
  pub document_id : DocumentId
  pub document_version : DocumentVersion
  pub text : Str
  pub markdown : Str
  pub pages : List DocumentPage
  pub fields : List (Str × ExtractedValue Value)
  pub tables : List DocumentTable
  pub confidence : Option ConfidenceDimensions
  pub citations : List Evidence
  pub warnings : List StableCode
  pub validation_failures : List ValidationFailure
  pub provider : Option Str
  pub model_version : Option Str
  pub processing_profile_version : Option Str
  pub duration_ms : Option ℕ
  pub cost : Option Cost

abbrev pub page_number : DocumentPage → ℕ
page_number p = p.page.number

-- `windows(2).any(|pages| pages[0].page == pages[1].page)`
abbrev pub repeats_page : List DocumentPage → Bool
repeats_page [] = false
repeats_page (p ∷ []) = false
repeats_page (p ∷ q ∷ ps) = (page_number p == page_number q) || repeats_page (q ∷ ps)

-- The provenance of a stored result has all of its four parts or none.
unfoldable pub stored_provenance :
    Option Str → Option Str → Option Str → Option ℕ → Result Error (Option ProcessingProvenance)
unfolding new_processing_provenance
stored_provenance none none none none = ok none
stored_provenance (some provider) (some model) (some profile) (some duration_ms) =
    new_processing_provenance provider model profile duration_ms >>= λ p. ok (some p)
stored_provenance _ _ _ _ = err invalid_processing_provenance

module _ {ℓ} {Value : Type ℓ} where
  abbrev pub bad_field_name : Str × ExtractedValue Value → Bool
  bad_field_name (name, value) = is_empty name || ltb 128 (len name)

  abbrev pub result_of :
      DocumentId
      → DocumentVersion
      → DocumentResultPayload Value
      → List DocumentPage
      → DocumentResult Value
  result_of document_id document_version payload pages = record {
    schema_version = result_schema_version;
    document_id = document_id;
    document_version = document_version;
    text = payload.text;
    markdown = payload.markdown;
    pages = pages;
    fields = payload.fields;
    tables = payload.tables;
    confidence = payload.confidence;
    citations = payload.citations;
    warnings = payload.warnings;
    validation_failures = payload.validation_failures;
    provider = Option.map (λ p. p.provider) payload.provenance;
    model_version = Option.map (λ p. p.model_version) payload.provenance;
    processing_profile_version = Option.map (λ p. p.processing_profile_version) payload.provenance;
    duration_ms = Option.map (λ p. p.duration_ms) payload.provenance;
    cost = payload.cost;
  }

  unfoldable pub new :
      DocumentId
      → DocumentVersion
      → DocumentResultPayload Value
      → Result Error (DocumentResult Value)
  unfolding sort_by_key len
  new document_id document_version payload =
      if (not (is_empty payload.text) || not (is_empty payload.markdown))
        && length payload.citations == 0
      then err missing_document_evidence
      else if any bad_field_name payload.fields
      then err invalid_field_name
      else if ltb maximum_page_count (length payload.pages)
      then err invalid_document_page
      else (let sorted = sort_by_key page_number payload.pages in
          if repeats_page sorted
          then err invalid_document_page
          else ok (result_of document_id document_version payload sorted))

  unfoldable pub try_from : DocumentResult Value → Result Error (DocumentResult Value)
  unfolding new stored_provenance str_eq
  try_from value =
      if not (str_eq value.schema_version result_schema_version)
      then err unsupported_result_schema_version
      else stored_provenance value.provider value.model_version value.processing_profile_version
          value.duration_ms
        >>= λ provenance. new value.document_id value.document_version (record {
          text = value.text;
          markdown = value.markdown;
          pages = value.pages;
          fields = value.fields;
          tables = value.tables;
          confidence = value.confidence;
          citations = value.citations;
          warnings = value.warnings;
          validation_failures = value.validation_failures;
          provenance = provenance;
          cost = value.cost;
        })
