-- ===== src/Store/Uploads/Calls.antt =====
-- Sequences of calls on the uploads of crates/ocr-store/src/lib.rs, by any number of processes, and
-- what each call can do to the table.
use document_intelligence.Base.{ℕ, ◌≡◌, Bool, true, false, List, [], ◌∷◌, ◌++◌, some, Result}
use document_intelligence.Base.Text.{Str}
use document_intelligence.Domain.Ids.{UploadId}
use document_intelligence.Store.Values.{
  Error, StoredWorkScope, CreateUpload, RecordUpload, AcceptUpload, ClaimUploadInspectionOutcome,
  UploadRejectionReason,
}
use document_intelligence.Store.Tables.{Database, UploadRow, find_row, update_row}
use document_intelligence.Store.Transactions.{
  Leaves, Leaves-end, Leaves-validated, Leaves-found, Leaves-branch, Leaves-commit,
}
use document_intelligence.Store.WorkScopes.{register_work_scope, set_work_scope_pending}
use document_intelligence.Store.Uploads.{
  create_upload, record_uploaded, accept_upload, claim_upload_inspection, reject_upload, has_upload,
  claim_writes,
}
use document_intelligence.Store.Uploads.Rows.{
  reserved_row, is_recordable, uploaded_row, is_acceptable, accepted_row, claim_outcome, claim_row,
  is_rejectable, rejected_row,
}

-- Each call with the time of its transaction.
pub data UploadCall : Type 0 where
  creates : ℕ → CreateUpload → UploadCall
  records : ℕ → ℕ → StoredWorkScope → UploadId → RecordUpload → UploadCall
  claims : ℕ → StoredWorkScope → UploadId → Str → UploadCall
  accepts : ℕ → StoredWorkScope → UploadId → AcceptUpload → UploadCall
  rejects : ℕ → StoredWorkScope → UploadId → Str → UploadRejectionReason → UploadCall

unfoldable pub step : Database → UploadCall → Database
unfolding create_upload record_uploaded claim_upload_inspection accept_upload reject_upload
step db (creates now request) = (create_upload now request db).0
step db (records now clock scope id r) = (record_uploaded now clock scope id r db).0
step db (claims now scope id owner) = (claim_upload_inspection now scope id owner db).0
step db (accepts now scope id s) = (accept_upload now scope id s db).0
step db (rejects now scope id owner reason) = (reject_upload now scope id owner reason db).0

unfoldable pub run : Database → List UploadCall → Database
unfolding step
run db [] = db
run db (call ∷ calls) = run (step db call) calls

-- The rows that a call is about.
abbrev pub key_of : UploadCall → UploadRow → Bool
key_of (creates now request) row = false
key_of (records now clock scope id r) row = has_upload scope id row
key_of (claims now scope id owner) row = has_upload scope id row
key_of (accepts now scope id s) row = has_upload scope id row
key_of (rejects now scope id owner reason) row = has_upload scope id row

-- What a call makes of the row that it is about.
pub data Effect : UploadCall → UploadRow → UploadRow → Type 0 where
  records_it :
      (now clock : ℕ) (scope : StoredWorkScope) (id : UploadId) (r : RecordUpload) (row : UploadRow)
      → is_recordable now r row ≡ true
      → Effect (records now clock scope id r) row (uploaded_row now r row)
  claims_it :
      (now : ℕ) (scope : StoredWorkScope) (id : UploadId) (owner : Str) (row : UploadRow)
      → Effect
          (claims now scope id owner)
          row
          (claim_row now owner (claim_outcome now owner row) row)
  accepts_it :
      (now : ℕ) (scope : StoredWorkScope) (id : UploadId) (s : AcceptUpload) (row : UploadRow)
      → is_acceptable now s row ≡ true
      → Effect (accepts now scope id s) row (accepted_row s row)
  rejects_it :
      (now : ℕ) (scope : StoredWorkScope) (id : UploadId) (owner : Str)
      (reason : UploadRejectionReason) (row : UploadRow)
      → is_rejectable now owner row ≡ true
      → Effect (rejects now scope id owner reason) row (rejected_row reason row)

-- The three things that can happen to the table.
module _ (P : List UploadRow → Type 0) (db : Database) where
  abbrev Updates : UploadCall → Type 0
  Updates call =
      (f : UploadRow → UploadRow) (row : UploadRow)
      → find_row (key_of call) db.uploads ≡ some row
      → Effect call row (f row)
      → P (update_row (key_of call) f db.uploads)

  abbrev Q : {A : Type 0} → Database → Result Error A → Type 0
  Q after r = P after.uploads

  abbrev Appends : Type 0
  Appends = (now : ℕ) (request : CreateUpload) → P (db.uploads ++ reserved_row now request ∷ [])

  create_cases :
      (now : ℕ) (request : CreateUpload)
      → P db.uploads
      → Appends
      → Leaves Q (create_upload now request db)
  unfolding create_upload
  create_cases now request same new =
      Leaves-found Q _ _ _
        (λ e.
          Leaves-branch Q _ _ _ (λ t. Leaves-end Q _ _ same)
            λ t. Leaves-commit Q _ _ _ _ (λ x. same) (λ x y. new now request))
        (λ row e.
          Leaves-branch Q _ _ _ (λ t. Leaves-end Q _ _ same)
            λ t. Leaves-commit Q _ _ _ _ (λ x. same) (λ x y. same))

  record_cases :
      (now clock : ℕ) (scope : StoredWorkScope) (id : UploadId) (r : RecordUpload)
      → P db.uploads
      → Updates (records now clock scope id r)
      → Leaves Q (record_uploaded now clock scope id r db)
  unfolding record_uploaded register_work_scope
  record_cases now clock scope id r same updates =
      Leaves-validated Q _ _ _ (λ x. same)
        λ v.
          Leaves-found Q _ _ _ (λ e. Leaves-end Q _ _ same)
            λ row e.
              Leaves-branch Q _ _ _
                (λ t.
                  Leaves-commit Q _ _ _ _ (λ x. same)
                    (λ x y.
                      updates (uploaded_row now r) row e (records_it now clock scope id r row t)))
                (λ t. Leaves-end Q _ _ same)

  -- Each outcome of a claim writes the row that `claim_row` makes.
  claimed-holds :
      (now : ℕ) (scope : StoredWorkScope) (id : UploadId) (owner : Str)
      (outcome : ClaimUploadInspectionOutcome)
      → P (update_row (has_upload scope id) (claim_row now owner outcome) db.uploads)
      → P (claim_writes now scope id owner outcome db).uploads
  unfolding set_work_scope_pending
  claimed-holds now scope id owner ClaimUploadInspectionOutcome.attempts_exhausted h = h
  claimed-holds now scope id owner _ h = h

  claim_cases :
      (now : ℕ) (scope : StoredWorkScope) (id : UploadId) (owner : Str)
      → P db.uploads
      → Updates (claims now scope id owner)
      → Leaves Q (claim_upload_inspection now scope id owner db)
  unfolding claim_upload_inspection
  claim_cases now scope id owner same updates =
      Leaves-validated Q _ _ _ (λ x. same)
        λ v.
          Leaves-found Q _ _ _ (λ e. Leaves-end Q _ _ same)
            λ row e. Leaves-end Q _ _ (
              claimed-holds now scope id owner (claim_outcome now owner row) (
                updates (claim_row now owner (claim_outcome now owner row)) row e
                  (claims_it now scope id owner row)))

  accept_cases :
      (now : ℕ) (scope : StoredWorkScope) (id : UploadId) (s : AcceptUpload)
      → P db.uploads
      → Updates (accepts now scope id s)
      → Leaves Q (accept_upload now scope id s db)
  unfolding accept_upload set_work_scope_pending
  accept_cases now scope id s same updates =
      Leaves-validated Q _ _ _ (λ x. same)
        λ v.
          Leaves-found Q _ _ _ (λ e. Leaves-end Q _ _ same)
            λ row e.
              Leaves-branch Q _ _ _
                (λ t.
                  Leaves-end Q _ _
                    (updates (accepted_row s) row e (accepts_it now scope id s row t)))
                (λ t. Leaves-end Q _ _ same)

  reject_cases :
      (now : ℕ) (scope : StoredWorkScope) (id : UploadId) (owner : Str)
      (reason : UploadRejectionReason)
      → P db.uploads
      → Updates (rejects now scope id owner reason)
      → Leaves Q (reject_upload now scope id owner reason db)
  unfolding reject_upload set_work_scope_pending
  reject_cases now scope id owner reason same updates =
      Leaves-validated Q _ _ _ (λ x. same)
        λ v.
          Leaves-found Q _ _ _ (λ e. Leaves-end Q _ _ same)
            λ row e.
              Leaves-branch Q _ _ _
                (λ t. Leaves-end Q _ _ (
                  updates (rejected_row reason) row e (rejects_it now scope id owner reason row t)))
                (λ t. Leaves-end Q _ _ same)

  pub step_cases :
      (call : UploadCall) → P db.uploads → Appends → Updates call → P (step db call).uploads
  unfolding step
  step_cases (creates now request) same new updates = (create_cases now request same new).holds
  step_cases (records now clock scope id r) same new updates =
      (record_cases now clock scope id r same updates).holds
  step_cases (claims now scope id owner) same new updates =
      (claim_cases now scope id owner same updates).holds
  step_cases (accepts now scope id s) same new updates =
      (accept_cases now scope id s same updates).holds
  step_cases (rejects now scope id owner reason) same new updates =
      (reject_cases now scope id owner reason same updates).holds
