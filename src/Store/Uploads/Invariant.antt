-- ===== src/Store/Uploads/Invariant.antt =====
-- The shape of an upload's row in each state, which the constraints of the table `ocr_uploads` ask
-- for, over every sequence of calls in crates/ocr-store/src/lib.rs.
use document_intelligence.Base.{
  ℕ, ◌+◌, ◌≤◌, ◌≡◌, refl, sym, subst, if-holds, true, List, [], ◌∷◌, none, some, arith, All,
  All-append,
}
use document_intelligence.Base.Text.{Str, str_eq_iff}
use document_intelligence.Domain.SemanticMemory.{I64, pos, negsuc}
use document_intelligence.Store.Values.{
  UploadState, CreateUpload, ClaimUploadInspectionOutcome, as_str,
}
use document_intelligence.Store.Tables.{
  Database, UploadRow, SourceColumns, All-update_found, is_owned, five_minutes,
}
use document_intelligence.Store.Uploads.Rows.{
  reserved_row, i64_eq, accepted_row, source_columns, claim_outcome, claim_row, rejected_row,
}
use document_intelligence.Store.Uploads.Calls.{
  UploadCall, Effect, records_it, claims_it, accepts_it, rejects_it, step, run, step_cases, key_of,
}

pub i64_eq_iff : (a b : I64) → i64_eq a b ≡ true → a ≡ b
i64_eq_iff (pos m) (pos n) h = ground (arith, h)
i64_eq_iff (negsuc m) (negsuc n) h = ground (arith, h)
i64_eq_iff (pos m) (negsuc n) h = cc
i64_eq_iff (negsuc m) (pos n) h = cc

-- Nothing has been verified yet.
pub record IsUnverified (row : UploadRow) : Type 0 where
  pub version : row.object_version ≡ none
  pub content_type : row.verified_content_type ≡ none
  pub content_length : row.verified_content_length ≡ none
  pub digest : row.verified_digest ≡ none
  pub time : row.uploaded_at ≡ none

-- What has been verified is what was expected.
pub record IsVerified (row : UploadRow) : Type 0 where
  pub version : (v : Str) × (row.object_version ≡ some v)
  pub content_type : row.verified_content_type ≡ some row.expected_content_type
  pub content_length : row.verified_content_length ≡ some row.expected_content_length
  pub digest : row.verified_digest ≡ some row.expected_digest
  pub time : (t : ℕ) × (row.uploaded_at ≡ some t)

pub record IsUnleased (row : UploadRow) : Type 0 where
  pub owner : row.inspection_lease_owner ≡ none
  pub expiry : row.inspection_lease_expires_at ≡ none

pub record IsLeased (row : UploadRow) : Type 0 where
  pub owner : (o : Str) × (row.inspection_lease_owner ≡ some o)
  pub expiry : (t : ℕ) × (row.inspection_lease_expires_at ≡ some t)

-- The accepted source is the content that was verified.
abbrev pub IsSourceOf : UploadRow → SourceColumns → Type 0
IsSourceOf row c =
    (c.source_digest ≡ row.expected_digest)
    × (c.source_content_length ≡ row.expected_content_length)

-- From one to ten inspections have begun.
abbrev IsInspected : UploadRow → Type 0
IsInspected row = (1 ≤ row.inspection_attempts) × (row.inspection_attempts ≤ 10)

abbrev HasNoSource : UploadRow → Type 0
HasNoSource row = (row.source ≡ none) × (row.rejection_reason ≡ none)

abbrev pub Shape : UploadState → UploadRow → Type 0
Shape UploadState.uploaded row =
    IsVerified row × IsUnleased row × (row.inspection_attempts ≡ 0) × HasNoSource row
Shape UploadState.inspecting row = IsVerified row × IsLeased row × IsInspected row × HasNoSource row
Shape UploadState.accepted row =
    IsVerified row
    × IsUnleased row
    × IsInspected row
    × ((c : SourceColumns) × (row.source ≡ some c) × IsSourceOf row c)
    × (row.rejection_reason ≡ none)
Shape UploadState.rejected row =
    IsVerified row
    × IsUnleased row
    × IsInspected row
    × (row.source ≡ none)
    × ((reason : Str) × (row.rejection_reason ≡ some reason))
Shape _ row = IsUnverified row × IsUnleased row × (row.inspection_attempts ≡ 0) × HasNoSource row

pub record IsValid (row : UploadRow) : Type 0 where
  pub shape : Shape row.state row

reserved_row-IsValid : (now : ℕ) (request : CreateUpload) → IsValid (reserved_row now request)
unfolding reserved_row
reserved_row-IsValid now request = record {
  shape = (
    record {
      version = refl;
      content_type = refl;
      content_length = refl;
      digest = refl;
      time = refl;
    },
    record { owner = refl; expiry = refl },
    refl,
    (refl, refl),
  );
}

-- What a claim has seen before it writes.
Seen : ClaimUploadInspectionOutcome → UploadRow → Type 0
Seen ClaimUploadInspectionOutcome.claimed row =
    IsVerified row × (row.inspection_attempts ≤ 9) × HasNoSource row
Seen ClaimUploadInspectionOutcome.attempts_exhausted row =
    IsVerified row × IsInspected row × (row.source ≡ none)
Seen ClaimUploadInspectionOutcome.existing row =
    (row.state ≡ UploadState.inspecting) × Shape UploadState.inspecting row
Seen _ row = Unit

claim_outcome-Seen :
    (now : ℕ) (owner : Str) (row : UploadRow)
    → Shape row.state row
    → Seen (claim_outcome now owner row) row
unfolding claim_outcome Seen
claim_outcome-Seen now owner row shape = ground arith

renewed-IsValid :
    (row : UploadRow) (t : ℕ)
    → row.state ≡ UploadState.inspecting
    → Shape UploadState.inspecting row
    → IsValid (record row { inspection_lease_expires_at = some t })
renewed-IsValid row t e shape =
    let renewed : Shape UploadState.inspecting
        (record row { inspection_lease_expires_at = some t }) =
      ground arith in
    record {
      shape =
          subst (λ s. Shape s (record row { inspection_lease_expires_at = some t })) (sym e)
            renewed;
    }

Seen-IsValid :
    (now : ℕ) (owner : Str) (outcome : ClaimUploadInspectionOutcome) (row : UploadRow)
    → IsValid row
    → Seen outcome row
    → IsValid (claim_row now owner outcome row)
unfolding claim_row Seen
Seen-IsValid now owner ClaimUploadInspectionOutcome.claimed row v seen = ground (arith, seen)
Seen-IsValid now owner ClaimUploadInspectionOutcome.attempts_exhausted row v seen =
    ground (arith, seen)
Seen-IsValid now owner ClaimUploadInspectionOutcome.existing row v seen =
    if-holds IsValid (is_owned owner row.inspection_lease_owner) _ row
      (renewed-IsValid row (now + five_minutes) seen.0 seen.1) v
Seen-IsValid now owner _ row v seen = v

claim_row-IsValid :
    (now : ℕ) (owner : Str) (row : UploadRow)
    → IsValid row
    → IsValid (claim_row now owner (claim_outcome now owner row) row)
claim_row-IsValid now owner row v =
    Seen-IsValid now owner (claim_outcome now owner row) row v
      (claim_outcome-Seen now owner row v.shape)

Effect-IsValid :
    (call : UploadCall) (row new : UploadRow) → Effect call row new → IsValid row → IsValid new
unfolding rejected_row as_str
Effect-IsValid _ _ _ (records_it now clock scope id r row h) v =
    let type = str_eq_iff row.expected_content_type r.verified_content_type in
    let size = i64_eq_iff row.expected_content_length r.verified_content_length in
    let digest = str_eq_iff row.expected_digest r.verified_digest in
    ground (arith, v.shape, h, type, size, digest)
Effect-IsValid _ _ _ (claims_it now scope id owner row) v = claim_row-IsValid now owner row v
Effect-IsValid _ _ _ (accepts_it now scope id s row h) v =
    let digest = str_eq_iff s.source_digest row.expected_digest in
    let size = i64_eq_iff s.source_content_length row.expected_content_length in
    let before : Shape UploadState.inspecting row = ground (arith, v.shape, h) in
    let same : IsSourceOf row (source_columns s) = ground (arith, before, h, digest, size) in
    let verified : IsVerified (accepted_row s row) = ground (arith, before) in
    record {
      shape = (
        verified,
        record { owner = refl; expiry = refl },
        before.2,
        (source_columns s, refl, same),
        before.3.1,
      );
    }
Effect-IsValid _ _ _ (rejects_it now scope id owner reason row h) v = ground (arith, v.shape, h)

pub step-IsValid :
    (db : Database) (call : UploadCall)
    → All IsValid db.uploads
    → All IsValid (step db call).uploads
step-IsValid db call v =
    step_cases (All IsValid) db call v
      (λ now request.
        All-append IsValid db.uploads (reserved_row now request ∷ []) v
          (reserved_row-IsValid now request, tt))
      (λ f row e effect.
        All-update_found (key_of call) IsValid f db.uploads row e v
          (Effect-IsValid call row (f row) effect))

-- Every sequence of calls of any processes keeps the uploads valid: the lease, the number of
-- inspections, the verified content, the source and the rejection reason are there as the state
-- asks; the verified content is what was expected, and an accepted source has its digest.
pub run-IsValid :
    (db : Database) (calls : List UploadCall)
    → All IsValid db.uploads
    → All IsValid (run db calls).uploads
unfolding run
run-IsValid db [] v = v
run-IsValid db (call ∷ calls) v = run-IsValid (step db call) calls (step-IsValid db call v)
