-- ===== src/Store/WorkScopes/Claims.antt =====
-- `PgWorkScopeDirectory::claim` of crates/ocr-store/src/lib.rs and `list_reconcilable_uploads`: the
-- scopes with work, and the work of a scope. The collation of the database, which orders texts, is a
-- parameter: a rank of every text.
use document_intelligence.Base.{
  ℕ, ◌+◌, Bool, true, false, ◌&&◌, ◌||◌, not, List, [], ◌∷◌, Option, none, some, map, if◌then◌else◌,
  any, Result, ok, err, ◌>>=◌, ◌>>◌, reject_if, map_err, sort_by_key,
}
use document_intelligence.Base.Text.{Str, bytes, is_ascii_alphanumeric}
use document_intelligence.Domain.Ids.{UploadId, new_upload_id, new_product_id, new_tenant_id}
use document_intelligence.Domain.SemanticMemory.{I64}
use document_intelligence.Store.Values.{
  Error, database, invalid_work_scope, invalid_stored_upload, within_i64, StoredWorkScope, scope_eq,
  ClaimJobOutbox, UploadState,
}
use document_intelligence.Store.Validation.{validate_lease_owner}
use document_intelligence.Store.Tables.{Database, WorkScopeRow, UploadRow, five_minutes, is_owned}
use document_intelligence.Store.Outbox.{is_null, has_expired, take, select, limit_of}

-- `claim_owner ~ '^[A-Za-z0-9][A-Za-z0-9._:-]{0,127}$'`, for an owner that has been validated.
abbrev starts_alphanumeric : List ℕ → Bool
starts_alphanumeric [] = false
starts_alphanumeric (b ∷ bs) = is_ascii_alphanumeric b

abbrev is_claimable : ℕ → Str → WorkScopeRow → Bool
is_claimable now owner row =
    (is_owned owner row.lease_owner
      || (is_null row.lease_expires_at || has_expired now row.lease_expires_at))
    && (row.upload_pending || row.dispatch_pending)

abbrev updated_at_of : WorkScopeRow → ℕ
updated_at_of row = row.updated_at

-- The decoding of the returned scopes, which stops at the first that is refused.
unfoldable pub stored_work_scopes : List StoredWorkScope → Result Error (List StoredWorkScope)
unfolding new_product_id new_tenant_id
stored_work_scopes [] = ok []
stored_work_scopes (scope ∷ scopes) =
    let rest = stored_work_scopes scopes in
    map_err (λ _. invalid_work_scope) (new_product_id scope.product_id.text) >>= λ product.
    map_err (λ _. invalid_work_scope) (new_tenant_id scope.tenant_id.text) >>= λ tenant.
    rest >>= λ decoded_scopes.
    ok (record { product_id = product; tenant_id = tenant } ∷ decoded_scopes)

abbrev scope_of : WorkScopeRow → StoredWorkScope
scope_of row = row.scope

module _ (rank : Str → ℕ) where
  -- `order by scopes.updated_at, scopes.product_id, scopes.tenant_id limit claim_limit`
  unfoldable pub claimable : ℕ → Str → ℕ → List WorkScopeRow → List WorkScopeRow
  claimable now owner limit rows = take limit (
      sort_by_key updated_at_of (
        sort_by_key (λ row. rank row.scope.product_id.text)
          (sort_by_key (λ row. rank row.scope.tenant_id.text)
            (select (is_claimable now owner) rows))))

  abbrev is_chosen : List WorkScopeRow → WorkScopeRow → Bool
  is_chosen chosen row = any (λ c. scope_eq c.scope row.scope) chosen

  abbrev lease_row : ℕ → Str → List WorkScopeRow → WorkScopeRow → WorkScopeRow
  lease_row now owner chosen row =
      if is_chosen chosen row
      then record row {
        lease_owner = some owner;
        lease_expires_at = some (now + five_minutes);
        updated_at = now;
      }
      else row

  -- The claim that goes through, whose decoding may fail afterwards.
  abbrev claim_writes :
      ℕ → ClaimJobOutbox → Database → Database × Result Error (List StoredWorkScope)
  claim_writes now claim db =
      let chosen = claimable now claim.lease_owner (limit_of claim.limit) db.work_scopes in
      (
        record db { work_scopes = map (lease_row now claim.lease_owner chosen) db.work_scopes },
        stored_work_scopes (map scope_of (select (is_chosen chosen) db.work_scopes)),
      )

  unfoldable pub claim :
      ℕ → ClaimJobOutbox → Database → Database × Result Error (List StoredWorkScope)
  claim now request db = elim (validate_lease_owner request.lease_owner) [
    | err e ↦ (db, err e)
    | ok _ ↦
        if not (within_i64 1 100 request.limit)
        then (db, err invalid_work_scope)
        else if not (starts_alphanumeric (bytes request.lease_owner))
        then (db, err database)
        else claim_writes now request db
  ]

  abbrev is_reconcilable : ℕ → StoredWorkScope → UploadRow → Bool
  is_reconcilable now scope row = scope_eq row.scope scope && elim row.state [
    | UploadState.uploaded ↦ true
    | UploadState.inspecting ↦ has_expired now row.inspection_lease_expires_at
    | _ ↦ false
  ]

  -- Null comes last.
  abbrev null_rank : Option ℕ → ℕ
  null_rank none = 1
  null_rank (some t) = 0

  abbrev time_rank : Option ℕ → ℕ
  time_rank none = 0
  time_rank (some t) = t

  unfoldable pub decode_upload_ids : List UploadRow → Result Error (List UploadId)
  unfolding new_upload_id
  decode_upload_ids [] = ok []
  decode_upload_ids (row ∷ rows) =
      let rest = decode_upload_ids rows in
      map_err (λ _. invalid_stored_upload) (new_upload_id row.upload_id.text) >>= λ id.
      rest >>= λ ids. ok (id ∷ ids)

  unfoldable pub list_reconcilable_uploads :
      ℕ → StoredWorkScope → I64 → Database → Result Error (List UploadId)
  unfolding decode_upload_ids
  list_reconcilable_uploads now scope limit db =
      reject_if (not (within_i64 1 100 limit)) invalid_stored_upload
      >> decode_upload_ids (
          take (limit_of limit) (
            sort_by_key (λ row. null_rank row.uploaded_at)
              (sort_by_key (λ row. time_rank row.uploaded_at)
                (sort_by_key (λ row. rank row.upload_id.text)
                  (select (is_reconcilable now scope) db.uploads)))))
