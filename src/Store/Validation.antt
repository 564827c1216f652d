-- ===== src/Store/Validation.antt =====
-- The checks of crates/ocr-store/src/lib.rs on requests and on rows that it reads.
use document_intelligence.Base.{
  ℕ, ◌+◌, ◌*◌, max, Bool, true, false, ◌&&◌, ◌||◌, not, List, [], ◌∷◌, Option, none, some,
  if◌then◌else◌, ltb, leb, ◌==◌, within, all, any, length, Result, ok, err, ◌>>=◌, reject_if,
  u32_max, u64_max, checked_add,
}
use document_intelligence.Base.Text.{
  Str, codes, bytes, len, is_empty, str_eq, strip_prefix, is_some_and, is_ascii_digit,
  is_ascii_alphanumeric, is_ascii_graphic,
}
use document_intelligence.Domain.Geometry.{PageGeometry, pixels}
use document_intelligence.Domain.SemanticMemory.{I64, pos, negsuc}
use document_intelligence.PageWorkflow.{maximum_page_count}
use document_intelligence.Store.Values.{
  Error, invalid_stored_result, invalid_stored_upload, within_i64, RecordUpload, AcceptUpload,
  StoredAcceptedSource, StoredUpload, reserved, expired, StoredResultLocator,
}

abbrev pub lowercase_hex_byte : ℕ → Bool
lowercase_hex_byte b = is_ascii_digit b || within b'a' b'f' b

-- `valid_digest` of every validator
unfoldable pub valid_digest : Str → Bool
unfolding strip_prefix len bytes
valid_digest text =
    is_some_and (strip_prefix (codes "sha256:") text)
      (λ value. (len value == 64) && all lowercase_hex_byte (bytes value))

unfoldable pub valid_content_type : Str → Bool
unfolding str_eq
valid_content_type text = any (str_eq text) (
    codes "application/pdf"
    ∷ codes "image/jpeg"
    ∷ codes "image/png"
    ∷ codes "image/tiff"
    ∷ codes "image/webp"
    ∷ [])

unfoldable pub valid_object_version : Str → Bool
unfolding len str_eq bytes
valid_object_version value =
    not (is_empty value)
    && (leb (len value) 1024
        && (not (str_eq value (codes "null")) && all is_ascii_graphic (bytes value)))

abbrev parser_identifier_byte : ℕ → Bool
parser_identifier_byte b = is_ascii_alphanumeric b || (b == b'-' || (b == b'_' || b == b'.'))

unfoldable pub is_valid_parser_identifier : Str → Bool
unfolding len bytes
is_valid_parser_identifier value =
    within 1 64 (len value) && all parser_identifier_byte (bytes value)

abbrev pub lease_owner_byte : ℕ → Bool
lease_owner_byte b =
    is_ascii_alphanumeric b || (b == b'-' || (b == b'_' || (b == b'.' || b == b':')))

unfoldable pub is_valid_lease_owner : Str → Bool
unfolding len bytes
is_valid_lease_owner owner = within 1 128 (len owner) && all lease_owner_byte (bytes owner)

unfoldable pub validate_lease_owner : Str → Result Error (Unit {0})
unfolding is_valid_lease_owner
validate_lease_owner owner = reject_if (not (is_valid_lease_owner owner)) invalid_stored_upload

-- The loop of `valid_page_geometries` from an index on, with the maximum and the total so far.
-- `none` is an early `return false`.
unfoldable pub scan_geometries : ℕ → ℕ → ℕ → List PageGeometry → Option (ℕ × ℕ)
unfolding pixels
scan_geometries index maximum total [] = some (maximum, total)
scan_geometries index maximum total (page ∷ pages) =
    let rest =
      scan_geometries (index + 1) (max maximum (pixels page)) (total + pixels page) pages in
    if not (leb (index + 1) u32_max)
    then none
    else if not (page.page.number == index + 1)
    then none
    else elim (checked_add u64_max total (pixels page)) [ none ↦ none | some _ ↦ rest ]

unfoldable pub valid_page_geometries : List PageGeometry → ℕ → ℕ → ℕ → Bool
unfolding scan_geometries
valid_page_geometries pages page_count maximum_page_pixels total_page_pixels =
    if not (length pages == page_count)
    then false
    else is_some_and (scan_geometries 0 0 0 pages)
        (λ (maximum, total). (maximum == maximum_page_pixels) && (total == total_page_pixels))

-- `MAXIMUM_TOTAL_PAGE_PIXELS` of crates/ocr-domain/src/lib.rs
abbrev pub maximum_total_page_pixels : ℕ
maximum_total_page_pixels = maximum_page_count * 1_0000_0000

unfoldable pub validate_record : RecordUpload → Result Error (Unit {0})
unfolding valid_object_version valid_digest valid_content_type
validate_record record_upload =
    reject_if
      (not (valid_object_version record_upload.object_version)
        || (not (within_i64 1 1_0485_7600 record_upload.verified_content_length)
            || (not (valid_digest record_upload.verified_digest)
                || not (valid_content_type record_upload.verified_content_type))))
      invalid_stored_upload

-- `u32::try_from` and `u64::try_from` of a column
abbrev pub from_i64 : I64 → Result Error ℕ
from_i64 (pos n) = ok n
from_i64 (negsuc n) = err invalid_stored_upload

unfoldable pub validate_accepted_source : AcceptUpload → Result Error (Unit {0})
unfolding valid_object_version valid_digest is_valid_lease_owner valid_page_geometries
    is_valid_parser_identifier len
validate_accepted_source source = do
  page_count ← from_i64 source.parser_inspection.page_count
  maximum_page_pixels ← from_i64 source.parser_inspection.maximum_page_pixels
  total_page_pixels ← from_i64 source.parser_inspection.total_page_pixels
  reject_if
      (not (within 3 222 (len source.source_bucket))
        || (is_empty source.source_object_name
            || (ltb 1024 (len source.source_object_name)
                || (not (valid_object_version source.source_object_version)
                    || (not (within_i64 1 1_0485_7600 source.source_content_length)
                        || (not (valid_digest source.source_digest)
                            || (not (is_valid_lease_owner source.inspection_lease_owner)
                                || (not (within 1 maximum_page_count page_count)
                                    || (not (within 1 1_0000_0000 maximum_page_pixels)
                                        || (not (
                                              within maximum_page_pixels maximum_total_page_pixels
                                                total_page_pixels)
                                            || (not (
                                                  valid_page_geometries
                                                    source.parser_inspection.page_geometries
                                                    page_count maximum_page_pixels
                                                    total_page_pixels)
                                                || (not (
                                                      is_valid_parser_identifier
                                                        source.parser_inspection.profile)
                                                    || not (
                                                        is_valid_parser_identifier
                                                          source.parser_inspection.version)))))))))))))
      invalid_stored_upload

unfoldable pub validate_accepted_source_locator : StoredAcceptedSource → Result Error (Unit {0})
unfolding valid_object_version valid_digest valid_content_type valid_page_geometries
    is_valid_parser_identifier len
validate_accepted_source_locator source =
    reject_if
      (not (within 3 222 (len source.bucket))
        || (is_empty source.object_name
            || (ltb 1024 (len source.object_name)
                || (not (valid_object_version source.generation)
                    || (not (within_i64 1 1_0485_7600 source.content_length)
                        || (not (valid_digest source.digest)
                            || (not (valid_content_type source.content_type)
                                || (not (within 1 maximum_page_count source.page_count)
                                    || (not (within 1 1_0000_0000 source.maximum_page_pixels)
                                        || (not (
                                              within source.maximum_page_pixels
                                                maximum_total_page_pixels source.total_page_pixels)
                                            || (not (
                                                  valid_page_geometries source.page_geometries
                                                    source.page_count source.maximum_page_pixels
                                                    source.total_page_pixels)
                                                || (not (
                                                      is_valid_parser_identifier
                                                        source.parser_profile)
                                                    || not (
                                                        is_valid_parser_identifier
                                                          source.parser_version)))))))))))))
      invalid_stored_upload

abbrev is_some {ℓ} : {A : Type ℓ} → Option A → Bool
is_some none = false
is_some (some a) = true

-- `verification_shape_is_valid`
abbrev pub verification_shape_is_valid : StoredUpload → Bool
verification_shape_is_valid upload = elim upload.state [
  | reserved ↦ not (is_some upload.object_version) && not (is_some upload.uploaded_at)
  | expired ↦ not (is_some upload.object_version) && not (is_some upload.uploaded_at)
  | _ ↦ is_some upload.object_version && is_some upload.uploaded_at
]

unfoldable pub validate_upload : StoredUpload → Result Error (Unit {0})
unfolding valid_digest valid_content_type
validate_upload upload =
    reject_if
      (is_empty upload.object_bucket
        || (is_empty upload.object_name
            || (not (within_i64 1 1_0485_7600 upload.expected_content_length)
                || (not (valid_digest upload.expected_digest)
                    || (not (valid_content_type upload.expected_content_type)
                        || (leb upload.expires_at upload.created_at
                            || not (verification_shape_is_valid upload)))))))
      invalid_stored_upload

-- A length that is not `<= 0`.
abbrev pub is_positive : I64 → Bool
is_positive (pos n) = not (n == 0)
is_positive (negsuc n) = false

unfoldable pub validate_locator : StoredResultLocator → Result Error (Unit {0})
unfolding len valid_object_version valid_digest
validate_locator locator =
    reject_if
      (is_empty locator.object_bucket
        || (ltb 222 (len locator.object_bucket)
            || (is_empty locator.object_name
                || (ltb 1024 (len locator.object_name)
                    || (not (valid_object_version locator.object_version)
                        || (not (is_positive locator.content_length)
                            || not (valid_digest locator.object_digest)))))))
      invalid_stored_result
