-- ===== src/Store/WorkScopes.antt =====
-- The scopes with work to do: the calls of crates/ocr-store/src/lib.rs to the functions that
-- migrations/0015_work_scope_leases.sql defines, with those functions.
pub mod Claims
use document_intelligence.Base.{
  ℕ, Bool, true, false, ◌&&◌, ◌||◌, not, [], ◌∷◌, ◌++◌, none, some, if◌then◌else◌, any, Result, ok,
  err,
}
use document_intelligence.Base.Text.{Str}
use document_intelligence.Store.Values.{Error, StoredWorkScope, scope_eq}
use document_intelligence.Store.Validation.{validate_lease_owner}
use document_intelligence.Store.Tables.{
  Database, WorkScopeRow, find_row, update_row, is_lease_active, is_owned,
}

pub data WorkKind : Type 0 where
  upload dispatch : WorkKind

abbrev is_upload : WorkKind → Bool
is_upload upload = true
is_upload dispatch = false

abbrev pub has_scope : StoredWorkScope → WorkScopeRow → Bool
has_scope scope row = scope_eq row.scope scope

abbrev new_row : ℕ → StoredWorkScope → WorkKind → WorkScopeRow
new_row now scope kind = record {
  scope = scope;
  upload_pending = is_upload kind;
  dispatch_pending = not (is_upload kind);
  lease_owner = none;
  lease_expires_at = none;
  updated_at = now;
}

abbrev pending_row : ℕ → WorkKind → WorkScopeRow → WorkScopeRow
pending_row now kind row = record row {
  upload_pending = row.upload_pending || is_upload kind;
  dispatch_pending = row.dispatch_pending || not (is_upload kind);
  updated_at = now;
}

-- An insert that updates the row of the scope where there is one.
unfoldable pub register_work_scope : ℕ → StoredWorkScope → WorkKind → Database → Database
register_work_scope now scope kind db = record db {
  work_scopes =
      if any (has_scope scope) db.work_scopes
      then update_row (has_scope scope) (pending_row now kind) db.work_scopes
      else db.work_scopes ++ new_row now scope kind ∷ [];
}

unfoldable pub set_work_scope_pending : ℕ → StoredWorkScope → WorkKind → Bool → Database → Database
set_work_scope_pending now scope kind is_pending db = record db {
  work_scopes = update_row (has_scope scope) set_row db.work_scopes;
}
  where
    set_row : WorkScopeRow → WorkScopeRow
    set_row row = record row {
      upload_pending = if is_upload kind then is_pending else row.upload_pending;
      dispatch_pending = if is_upload kind then row.dispatch_pending else is_pending;
      updated_at = now;
    }

-- `PgWorkScopeDirectory::release`
unfoldable pub release : ℕ → StoredWorkScope → Str → Database → Database × Result Error Bool
unfolding validate_lease_owner
release now scope owner db = elim (validate_lease_owner owner) [
  | err e ↦ (db, err e)
  | ok _ ↦ elim (find_row (has_scope scope) db.work_scopes) [
    | none ↦ (db, ok false)
    | some row ↦
        if is_owned owner row.lease_owner && is_lease_active now row.lease_expires_at
        then (record db { work_scopes = update_row (has_scope scope) free db.work_scopes }, ok true)
        else (db, ok false)
  ]
]
  where
    free : WorkScopeRow → WorkScopeRow
    free row = record row { lease_owner = none; lease_expires_at = none; updated_at = now }
