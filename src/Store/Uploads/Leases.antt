-- ===== src/Store/Uploads/Leases.antt =====
-- What calls on the uploads of crates/ocr-store/src/lib.rs cannot change: an upload that is settled,
-- and one that another process inspects under a lease.
use document_intelligence.Base.{
  ℕ, ◌<◌, ◌≡◌, ◌≢◌, refl, subst, ap, ◌∙◌, ◌⊎◌, inl, inr, Bool, true, false, List, [], ◌∷◌, some,
  arith, All, All-always, All-imp,
}
use document_intelligence.Base.Text.{Str, str_eq_iff, str_eq-ne}
use document_intelligence.Domain.Ids.{UploadId}
use document_intelligence.Store.Values.{StoredWorkScope, UploadState, ClaimUploadInspectionOutcome}
use document_intelligence.Store.Tables.{
  Database, UploadRow, find_row, update_row, find_row-append, find_row-update_row, find_row-holds,
}
use document_intelligence.Store.Uploads.{has_upload}
use document_intelligence.Store.Uploads.Rows.{claim_outcome, claim_row, rejected_row}
use document_intelligence.Store.Uploads.Calls.{
  UploadCall, claims, accepts, rejects, Effect, records_it, claims_it, accepts_it, rejects_it, step,
  run, step_cases, key_of,
}

-- A call keeps the columns of the key.
Effect-key :
    (scope : StoredWorkScope) (id : UploadId) (call : UploadCall) (row new : UploadRow)
    → Effect call row new
    → has_upload scope id new ≡ has_upload scope id row
unfolding claim_row rejected_row
Effect-key scope id _ _ _ (records_it now clock s i r row h) = refl
Effect-key scope id _ _ _ (claims_it now s i owner row) = claimed (claim_outcome now owner row)
  where
    claimed :
        (outcome : ClaimUploadInspectionOutcome)
        → has_upload scope id (claim_row now owner outcome row) ≡ has_upload scope id row
    claimed outcome = ground arith
Effect-key scope id _ _ _ (accepts_it now s i source row h) = refl
Effect-key scope id _ _ _ (rejects_it now s i owner reason row h) = refl

-- A call that is about a row can do nothing to it.
abbrev IsHarmless : UploadRow → UploadCall → Type 0
IsHarmless row call = key_of call row ≡ true → (new : UploadRow) → Effect call row new → new ≡ row

step-unchanged :
    (scope : StoredWorkScope) (id : UploadId) (row : UploadRow) (db : Database) (call : UploadCall)
    → find_row (has_upload scope id) db.uploads ≡ some row
    → IsHarmless row call
    → find_row (has_upload scope id) (step db call).uploads ≡ some row
step-unchanged scope id row db call e harmless =
    step_cases (λ rows. find_row (has_upload scope id) rows ≡ some row) db call e
      (λ now request. find_row-append (has_upload scope id) db.uploads _ row e)
      (λ f r found effect. updated f r found effect (
        find_row-update_row (has_upload scope id) (key_of call) f db.uploads row r e found
          (Effect-key scope id call r (f r) effect)))
  where
    updated :
        (f : UploadRow → UploadRow) (r : UploadRow)
        → find_row (key_of call) db.uploads ≡ some r
        → Effect call r (f r)
        → (find_row (has_upload scope id) (update_row (key_of call) f db.uploads) ≡ some row)
          ⊎ (r ≡ row)
            × (find_row (has_upload scope id) (update_row (key_of call) f db.uploads) ≡ some (f r))
        → find_row (has_upload scope id) (update_row (key_of call) f db.uploads) ≡ some row
    updated f r found effect (inl kept) = kept
    updated f r found effect (inr (same, written)) =
        written
        ∙ ap some (
            harmless
              (subst (λ x. key_of call x ≡ true) same
                (find_row-holds (key_of call) db.uploads r found))
              (f r) (subst (λ x. Effect call x (f r)) same effect))

run-unchanged :
    (scope : StoredWorkScope) (id : UploadId) (row : UploadRow) (db : Database)
    (calls : List UploadCall)
    → find_row (has_upload scope id) db.uploads ≡ some row
    → All (IsHarmless row) calls
    → find_row (has_upload scope id) (run db calls).uploads ≡ some row
unfolding run
run-unchanged scope id row db [] e h = e
run-unchanged scope id row db (call ∷ calls) e h =
    run-unchanged scope id row (step db call) calls (step-unchanged scope id row db call e h.0) h.1

abbrev pub is_settled : UploadState → Bool
is_settled UploadState.accepted = true
is_settled UploadState.rejected = true
is_settled UploadState.expired = true
is_settled _ = false

settled-IsHarmless :
    (row : UploadRow) (call : UploadCall) → is_settled row.state ≡ true → IsHarmless row call
unfolding claim_row claim_outcome
settled-IsHarmless _ _ s k _ (records_it now clock scope id r row h) = ground (arith, s, h)
settled-IsHarmless _ _ s k _ (claims_it now scope id owner row) = ground (arith, s)
settled-IsHarmless _ _ s k _ (accepts_it now scope id source row h) = ground (arith, s, h)
settled-IsHarmless _ _ s k _ (rejects_it now scope id owner reason row h) = ground (arith, s, h)

-- An upload that is accepted, rejected or expired stays as it is over any further calls, its source
-- and its rejection reason included.
pub settled-for_good :
    (scope : StoredWorkScope) (id : UploadId) (row : UploadRow) (db : Database)
    (calls : List UploadCall)
    → find_row (has_upload scope id) db.uploads ≡ some row
    → is_settled row.state ≡ true
    → find_row (has_upload scope id) (run db calls).uploads ≡ some row
settled-for_good scope id row db calls e s =
    run-unchanged scope id row db calls e
      (All-always (IsHarmless row) (λ call. settled-IsHarmless row call s) calls)

-- The call does not come from the owner of the lease, and comes before its end where it claims.
abbrev pub IsForeign : UploadId → Str → ℕ → UploadCall → Type 0
IsForeign id owner t (claims now scope i o) = i.text ≡ id.text → (o ≢ owner) × (now < t)
IsForeign id owner t (accepts now scope i s) = i.text ≡ id.text → s.inspection_lease_owner ≢ owner
IsForeign id owner t (rejects now scope i o reason) = i.text ≡ id.text → o ≢ owner
IsForeign id owner t _ = Unit

-- A row under inspection by an owner whose lease lasts to a time.
pub record IsHeld (owner : Str) (t : ℕ) (row : UploadRow) : Type 0 where
  pub state : row.state ≡ UploadState.inspecting
  pub owner_is : row.inspection_lease_owner ≡ some owner
  pub expiry_is : row.inspection_lease_expires_at ≡ some t

same_id :
    (scope s : StoredWorkScope) (id i : UploadId) (row : UploadRow)
    → has_upload scope id row ≡ true
    → has_upload s i row ≡ true
    → i.text ≡ id.text
same_id scope s id i row own k = ground (
  arith,
  own,
  k,
  (str_eq_iff row.upload_id.text id.text).0,
  (str_eq_iff row.upload_id.text i.text).0,
)

foreign-IsHarmless :
    (scope : StoredWorkScope) (id : UploadId) (owner : Str) (t : ℕ) (row : UploadRow)
    (call : UploadCall)
    → has_upload scope id row ≡ true
    → IsHeld owner t row
    → IsForeign id owner t call
    → IsHarmless row call
unfolding claim_row claim_outcome
foreign-IsHarmless scope id owner t _ _ own held far k _ (records_it now clock s i r row h) =
    ground (arith, held, h)
foreign-IsHarmless scope id owner t _ _ own held far k _ (claims_it now s i o row) =
    let (other, early) = far (same_id scope s id i row own k) in
    let differ = str_eq-ne o owner other in ground (arith, held, differ, early)
foreign-IsHarmless scope id owner t _ _ own held far k _ (accepts_it now s i source row h) =
    let differ =
      str_eq-ne source.inspection_lease_owner owner (far (same_id scope s id i row own k)) in
    ground (arith, held, differ, h)
foreign-IsHarmless scope id owner t _ _ own held far k _ (rejects_it now s i o reason row h) =
    let differ = str_eq-ne o owner (far (same_id scope s id i row own k)) in
    ground (arith, held, differ, h)

-- While a lease lasts, no calls of other processes change the upload: they neither take it over
-- nor accept nor reject it.
pub lease_protects :
    (scope : StoredWorkScope) (id : UploadId) (owner : Str) (t : ℕ) (row : UploadRow)
    (db : Database) (calls : List UploadCall)
    → find_row (has_upload scope id) db.uploads ≡ some row
    → IsHeld owner t row
    → All (IsForeign id owner t) calls
    → find_row (has_upload scope id) (run db calls).uploads ≡ some row
lease_protects scope id owner t row db calls e held far = run-unchanged scope id row db calls e (
    All-imp (IsForeign id owner t) (IsHarmless row)
      (λ call.
        foreign-IsHarmless scope id owner t row call
          (find_row-holds (has_upload scope id) db.uploads row e) held)
      calls far)
