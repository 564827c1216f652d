-- ===== src/Domain/Documents.antt =====
-- The parts of a document's result, from crates/ocr-domain/src/lib.rs: extracted values, tables,
-- confidence, provenance and cost. Each stored form has the fields of its type, and its conversion
-- calls `new`. The JSON value of an extracted field is of a type that the definitions take.
pub mod Laws
use document_intelligence.Base.{
  ℕ, Bool, true, false, ◌&&◌, ◌||◌, not, List, [], ◌∷◌, Option, none, some, if◌then◌else◌, ltb,
  ◌==◌, within, all, any, length, Result, ok, err, ◌>>=◌, sort_by_key,
}
use document_intelligence.Base.Text.{
  Str, codes, bytes, len, is_empty, str_eq, or_default, first, is_some_and, is_ascii_alphanumeric,
  is_ascii_digit, is_ascii_uppercase,
}
use document_intelligence.Domain.Errors.{
  Error, missing_evidence, invalid_table, invalid_processing_provenance, invalid_cost,
  missing_document_evidence, invalid_field_name, invalid_document_page,
  unsupported_result_schema_version,
}
use document_intelligence.Domain.Ids.{DocumentId, DocumentVersion, StableCode, TableId}
use document_intelligence.Domain.Geometry.{F64, Confidence, new_confidence}
use document_intelligence.Domain.Pages.{Evidence, DocumentPage}

pub record ExtractedValue {ℓ} (Value : Type ℓ) : Type ℓ where
  pub value : Value
  pub confidence : Confidence
  pub evidence : List Evidence

unfoldable pub new_extracted_value {ℓ} :
    {Value : Type ℓ} → Value → Confidence → List Evidence → Result Error (ExtractedValue Value)
new_extracted_value value confidence [] = err missing_evidence
new_extracted_value value confidence (e ∷ es) =
    ok (record { value = value; confidence = confidence; evidence = e ∷ es })

pub record TableCell : Type 0 where
  pub row : ℕ
  pub column : ℕ
  pub text : Str
  pub confidence : Confidence
  pub evidence : List Evidence

unfoldable pub new_table_cell : ℕ → ℕ → Str → Confidence → List Evidence → Result Error TableCell
new_table_cell row column text confidence [] = err missing_evidence
new_table_cell row column text confidence (e ∷ es) =
    ok (record {
      row = row;
      column = column;
      text = text;
      confidence = confidence;
      evidence = e ∷ es;
    })

pub record DocumentTable : Type 0 where
  pub table_id : TableId
  pub cells : List TableCell

unfoldable pub new_document_table : TableId → List TableCell → Result Error DocumentTable
new_document_table table_id cells =
    if length cells == 0 || ltb 10000 (length cells)
    then err invalid_table
    else ok (record { table_id = table_id; cells = cells })

pub record ConfidenceDimensions : Type 0 where
  pub input_quality : Confidence
  pub ocr : Confidence
  pub classification : Confidence
  pub extraction : Confidence
  pub validation : Confidence
  pub overall : Confidence

unfoldable pub new_confidence_dimensions :
    F64 → F64 → F64 → F64 → F64 → F64 → Result Error ConfidenceDimensions
unfolding new_confidence
new_confidence_dimensions input_quality ocr classification extraction validation overall =
    new_confidence input_quality >>= λ a. new_confidence ocr >>= λ b.
    new_confidence classification >>= λ c. new_confidence extraction >>= λ d.
    new_confidence validation >>= λ e. new_confidence overall >>= λ f. ok (record {
      input_quality = a;
      ocr = b;
      classification = c;
      extraction = d;
      validation = e;
      overall = f;
    })

pub data ValidationSeverity : Type 0 where
  warning error : ValidationSeverity

pub record ValidationFailure : Type 0 where
  pub code : StableCode
  pub severity : ValidationSeverity

pub record ProcessingProvenance : Type 0 where
  pub provider : Str
  pub model_version : Str
  pub processing_profile_version : Str
  pub duration_ms : ℕ

abbrev pub version_byte : ℕ → Bool
version_byte b = is_ascii_alphanumeric b || (b == b'.' || (b == b'_' || b == b'-'))

unfoldable pub valid_version_name : Str → Bool
unfolding len bytes
valid_version_name value =
    within 1 128 (len value)
    && (all version_byte (bytes value) && is_some_and (first (bytes value)) is_ascii_alphanumeric)

unfoldable pub new_processing_provenance : Str → Str → Str → ℕ → Result Error ProcessingProvenance
unfolding valid_version_name
new_processing_provenance provider model_version processing_profile_version duration_ms =
    if not (valid_version_name provider)
      || (not (valid_version_name model_version)
          || not (valid_version_name processing_profile_version))
    then err invalid_processing_provenance
    else ok (record {
      provider = provider;
      model_version = model_version;
      processing_profile_version = processing_profile_version;
      duration_ms = duration_ms;
    })

pub record Cost : Type 0 where
  pub currency : Str
  pub decimal : Str

-- `split('.')`: the parts between the dots, always one or more
abbrev pub cons_part : ℕ → List Str → List Str
cons_part c [] = (c ∷ []) ∷ []
cons_part c (p ∷ ps) = (c ∷ p) ∷ ps

abbrev pub split_dots : Str → List Str
split_dots [] = [] ∷ []
split_dots (c ∷ s) = if c == b'.' then [] ∷ split_dots s else cons_part c (split_dots s)

abbrev pub is_digits : Str → Bool
is_digits part = not (is_empty part) && all is_ascii_digit (bytes part)

-- The whole part, at most one fraction after it, and no third part.
abbrev pub valid_parts : List Str → Bool
valid_parts [] = false
valid_parts (whole ∷ []) = is_digits whole
valid_parts (whole ∷ fraction ∷ []) = is_digits whole && is_digits fraction
valid_parts (whole ∷ fraction ∷ part ∷ parts) = false

unfoldable pub new_cost : Str → Str → Result Error Cost
unfolding len bytes
new_cost currency decimal =
    if not ((len currency == 3) && all is_ascii_uppercase (bytes currency))
      || not (valid_parts (split_dots decimal))
    then err invalid_cost
    else ok (record { currency = currency; decimal = decimal })
