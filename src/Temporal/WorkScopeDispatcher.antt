-- ===== src/Temporal/WorkScopeDispatcher.antt =====
-- crates/ocr-temporal/src/work_scope_dispatcher.rs: one round over the scopes that have work. The
-- directory of the scopes, the store, the importer and the relay are parameters over a state, which
-- other processes may change between two calls.
pub mod Rounds
pub mod Tests
use document_intelligence.Base.{
  ℕ, suc, ◌+◌, Bool, true, false, ◌&&◌, ◌||◌, not, List, [], ◌∷◌, length, all, Result, ok, err,
  if◌then◌else◌, ltb, ◌==◌, within,
}
use document_intelligence.Base.Text.{Str, bytes, len, is_ascii_alphanumeric}
use document_intelligence.Domain.Ids.{UploadId}
use document_intelligence.Domain.SemanticMemory.{I64, pos, negsuc}
use document_intelligence.Store.Values.{StoredWorkScope, ClaimJobOutbox, within_i64}
use document_intelligence.Service.OutboxRelay.{RelayOutcome, idle, published, retryable, lease_lost}

pub record WorkScopeDispatchOutcome : Type 0 where
  pub scopes : ℕ
  pub uploads : ℕ
  pub workflows : ℕ
  pub lease_lost : ℕ

pub data WorkScopeDispatchError (E I R : Type 0) : Type 0 where
  store : E → WorkScopeDispatchError E I R
  import : I → WorkScopeDispatchError E I R
  relay : R → WorkScopeDispatchError E I R
  invalid_configuration : WorkScopeDispatchError E I R

-- The bytes of a lease owner from an index on.
abbrev owner_bytes : ℕ → List ℕ → Bool
owner_bytes index [] = true
owner_bytes index (b ∷ bs) =
    (is_ascii_alphanumeric b
      || (ltb 0 index && (b == b'.' || (b == b'_' || (b == b':' || b == b'-')))))
    && owner_bytes (index + 1) bs

unfoldable pub valid_lease_owner : Str → Bool
unfolding len bytes
valid_lease_owner value = within 1 128 (len value) && owner_bytes 0 (bytes value)

pub record WorkScopeDispatcher : Type 0 where
  pub lease_owner : Str
  pub scope_limit : I64
  pub upload_limit : I64

unfoldable pub new_dispatcher :
    {E I R : Type 0} → Str → I64 → I64 → Result (WorkScopeDispatchError E I R) WorkScopeDispatcher
unfolding valid_lease_owner
new_dispatcher lease_owner scope_limit upload_limit =
    if not (valid_lease_owner lease_owner)
      || (not (within_i64 1 100 scope_limit) || not (within_i64 1 100 upload_limit))
    then err invalid_configuration
    else ok (record {
      lease_owner = lease_owner;
      scope_limit = scope_limit;
      upload_limit = upload_limit;
    })

-- The calls that the dispatcher makes; the outcome of an import is dropped.
pub record Dispatching (S E I R : Type 0) : Type 0 where
  pub claim : ClaimJobOutbox → S → S × Result E (List StoredWorkScope)
  pub release : StoredWorkScope → Str → S → S × Result E Bool
  pub list_reconcilable_uploads : StoredWorkScope → I64 → S → S × Result E (List UploadId)
  pub reconcile : StoredWorkScope → UploadId → Str → S → S × Result I (Unit {0})
  pub relay_scope : StoredWorkScope → Str → I64 → S → S × Result R RelayOutcome

abbrev pub nothing_done : ℕ → WorkScopeDispatchOutcome
nothing_done scopes = record { scopes = scopes; uploads = 0; workflows = 0; lease_lost = 0 }

-- The match on the outcome of the relay.
abbrev pub add_relayed : RelayOutcome → WorkScopeDispatchOutcome → WorkScopeDispatchOutcome
add_relayed idle outcome = outcome
add_relayed (published n) outcome = record outcome { workflows = outcome.workflows + n }
add_relayed (retryable n) outcome = record outcome { workflows = outcome.workflows + n }
add_relayed (RelayOutcome.lease_lost n) outcome = record outcome {
  workflows = outcome.workflows + n;
  lease_lost = outcome.lease_lost + 1;
}

-- The sums at the end of the loop over the scopes.
abbrev pub add_scope :
    WorkScopeDispatchOutcome → WorkScopeDispatchOutcome → WorkScopeDispatchOutcome
add_scope outcome dispatched = record outcome {
  uploads = outcome.uploads + dispatched.uploads;
  workflows = outcome.workflows + dispatched.workflows;
  lease_lost = outcome.lease_lost + dispatched.lease_lost;
}

module _ {S E I R : Type 0} (calls : Dispatching S E I R) (dispatcher : WorkScopeDispatcher) where
  abbrev pub Round : Type 0
  Round = S × Result (WorkScopeDispatchError E I R) WorkScopeDispatchOutcome

  abbrev pub upload_step : S × Result I (Unit {0}) → Round → Round
  upload_step (s, err e) rest = (s, err (import e))
  upload_step (s, ok u) rest = rest

  abbrev pub relay_then : WorkScopeDispatchOutcome → S × Result R RelayOutcome → Round
  relay_then outcome (s, err e) = (s, err (relay e))
  relay_then outcome (s, ok r) = (s, ok (add_relayed r outcome))

  -- The loop over the uploads, and the relay after it.
  unfoldable pub dispatch_uploads :
      StoredWorkScope → List UploadId → WorkScopeDispatchOutcome → S → Round
  dispatch_uploads scope [] outcome s =
      relay_then outcome (calls.relay_scope scope dispatcher.lease_owner dispatcher.upload_limit s)
  dispatch_uploads scope (id ∷ ids) outcome s =
      let done = calls.reconcile scope id dispatcher.lease_owner s in
      let rest =
        dispatch_uploads scope ids (record outcome { uploads = outcome.uploads + 1 }) done.0 in
      upload_step done rest

  abbrev pub listed_then : StoredWorkScope → S × Result E (List UploadId) → Round
  listed_then scope (s, err e) = (s, err (store e))
  listed_then scope (s, ok ids) = dispatch_uploads scope ids (nothing_done 0) s

  unfoldable pub dispatch_scope : StoredWorkScope → S → Round
  unfolding dispatch_uploads
  dispatch_scope scope s =
      listed_then scope (calls.list_reconcilable_uploads scope dispatcher.upload_limit s)

  -- `if !released { outcome.lease_lost += 1; }`
  abbrev pub released_in : Bool → WorkScopeDispatchOutcome → WorkScopeDispatchOutcome
  released_in true outcome = outcome
  released_in false outcome = record outcome { lease_lost = outcome.lease_lost + 1 }

  abbrev pub scope_outcome :
      Bool → WorkScopeDispatchOutcome → WorkScopeDispatchOutcome → WorkScopeDispatchOutcome
  scope_outcome released outcome dispatched = add_scope (released_in released outcome) dispatched

  -- The body of the loop after the two calls: the release comes first, then the error of the scope.
  abbrev pub scope_step :
      Result (WorkScopeDispatchError E I R) WorkScopeDispatchOutcome
      → S × Result E Bool
      → (Bool → WorkScopeDispatchOutcome → Round)
      → Round
  scope_step dispatched (s, err e) rest = (s, err (store e))
  scope_step (err e) (s, ok released) rest = (s, err e)
  scope_step (ok dispatched) (s, ok released) rest = rest released dispatched

  unfoldable pub dispatch_scopes : List StoredWorkScope → S → WorkScopeDispatchOutcome → Round
  unfolding dispatch_scope
  dispatch_scopes [] s outcome = (s, ok outcome)
  dispatch_scopes (scope ∷ scopes) s outcome =
      let dispatched = dispatch_scope scope s in
      let released = calls.release scope dispatcher.lease_owner dispatched.0 in
      scope_step dispatched.1 released λ is_released done.
        dispatch_scopes scopes released.0 (scope_outcome is_released outcome done)

  abbrev pub claimed_then : S × Result E (List StoredWorkScope) → Round
  claimed_then (s, err e) = (s, err (store e))
  claimed_then (s, ok scopes) = dispatch_scopes scopes s (nothing_done (length scopes))

  unfoldable pub dispatch_once : S → Round
  unfolding dispatch_scopes
  dispatch_once s = claimed_then (
      calls.claim (record { lease_owner = dispatcher.lease_owner; limit = dispatcher.scope_limit })
        s)
