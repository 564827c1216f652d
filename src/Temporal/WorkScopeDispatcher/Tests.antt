-- ===== src/Temporal/WorkScopeDispatcher/Tests.antt =====
-- A dispatcher over two scopes of which the second one has an upload that is refused.
use document_intelligence.Base.{ℕ, ◌+◌, List, [], ◌∷◌, true, ok, err, zero}
use document_intelligence.Base.Text.{codes}
use document_intelligence.Domain.Ids.{UploadId}
use document_intelligence.Domain.SemanticMemory.{pos}
use document_intelligence.Service.OutboxRelay.{published}
use document_intelligence.Temporal.WorkScopeDispatcher.{
  Dispatching, WorkScopeDispatcher, nothing_done, dispatch_scopes,
}
use document_intelligence.Temporal.WorkScopeDispatcher.Rounds.{Says, dispatch_scopes-Says}
use document_intelligence.Store.Tests.{scope, id_of_upload}

abbrev uploads_of : ℕ → List UploadId
uploads_of zero = []
uploads_of _ = id_of_upload ∷ []

-- The state is the number of released scopes.
abbrev counting : Dispatching ℕ (Unit {0}) ℕ (Unit {0})
counting = record {
  claim = λ claim n. (n, ok (scope ∷ scope ∷ []));
  release = λ s owner n. (n + 1, ok true);
  list_reconcilable_uploads = λ s limit n. (n, ok (uploads_of n));
  reconcile = λ s id owner n. (n, err 7);
  relay_scope = λ s owner limit n. (n, ok (published 3));
}

abbrev dispatcher : WorkScopeDispatcher
dispatcher = record {
  lease_owner = codes "dispatcher-1";
  scope_limit = pos 10;
  upload_limit = pos 10;
}

dispatch_scopes-Says_example :
    let (last, r) = dispatch_scopes counting dispatcher (scope ∷ scope ∷ []) 0 (nothing_done 2) in
    Says counting dispatcher 0 (scope ∷ scope ∷ []) (nothing_done 2) last r
dispatch_scopes-Says_example =
    dispatch_scopes-Says counting dispatcher (scope ∷ scope ∷ []) 0 (nothing_done 2)
