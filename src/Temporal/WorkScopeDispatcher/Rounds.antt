-- ===== src/Temporal/WorkScopeDispatcher/Rounds.antt =====
-- What a round of the dispatcher in crates/ocr-temporal/src/work_scope_dispatcher.rs does with the
-- scopes that it has claimed.
use document_intelligence.Base.{
  ℕ, ◌+◌, arith, ◌≡◌, ◌⊎◌, inl, inr, refl, ap, Bool, true, false, List, [], ◌∷◌, ◌++◌, Result, ok,
  err,
}
use document_intelligence.Store.Values.{StoredWorkScope}
use document_intelligence.Temporal.WorkScopeDispatcher.{
  Dispatching, WorkScopeDispatcher, WorkScopeDispatchOutcome, WorkScopeDispatchError, store,
  scope_outcome, scope_step, dispatch_scope, dispatch_scopes,
}

-- A scope that was served: whether its lease still held at the release, and what was dispatched.
abbrev pub Serving : Type 0
Serving = Bool × WorkScopeDispatchOutcome

pub sum_of : (Serving → ℕ) → List Serving → ℕ
sum_of f [] = 0
sum_of f (served ∷ more) = f served + sum_of f more

abbrev pub uploads_of : Serving → ℕ
uploads_of (held, dispatched) = dispatched.uploads

abbrev pub workflows_of : Serving → ℕ
workflows_of (held, dispatched) = dispatched.workflows

-- The leases that a scope lost: those of its events, and its own.
abbrev pub lost_of : Serving → ℕ
lost_of (true, dispatched) = dispatched.lease_lost
lost_of (false, dispatched) = dispatched.lease_lost + 1

-- The numbers that a round adds to those that it began with.
pub record AddsUp (sums : WorkScopeDispatchOutcome) (served : List Serving)
    (total : WorkScopeDispatchOutcome) : Type 0 where
  pub same_scopes : total.scopes ≡ sums.scopes
  pub all_uploads : total.uploads ≡ sums.uploads + sum_of uploads_of served
  pub all_workflows : total.workflows ≡ sums.workflows + sum_of workflows_of served
  pub all_lost : total.lease_lost ≡ sums.lease_lost + sum_of lost_of served

module _ {S E I R : Type 0} (calls : Dispatching S E I R) (dispatcher : WorkScopeDispatcher) where
  abbrev Error : Type 0
  Error = WorkScopeDispatchError E I R

  -- Scopes that were dispatched and then released, one after another.
  pub data Served : S → List StoredWorkScope → List Serving → S → Type 0 where
    none_left : (s : S) → Served s [] [] s
    one_more :
        (s after later last : S) (scope : StoredWorkScope) (scopes : List StoredWorkScope)
        (dispatched : WorkScopeDispatchOutcome) (held : Bool) (served : List Serving)
        → dispatch_scope calls dispatcher scope s ≡ (after, ok dispatched)
        → calls.release scope dispatcher.lease_owner after ≡ (later, ok held)
        → Served later scopes served last
        → Served s (scope ∷ scopes) ((held, dispatched) ∷ served) last

  -- The scope at which a round stopped: its release was tried, whether or not its dispatch had
  -- failed, and the round ends with the error of the release, or else with that of the dispatch.
  pub record StopsAt (s : S) (scopes : List StoredWorkScope) (last : S) (e : Error) : Type 0 where
    pub done : List StoredWorkScope
    pub scope : StoredWorkScope
    pub rest : List StoredWorkScope
    pub middle : S
    pub after : S
    pub outcomes : List Serving
    pub dispatched : Result Error WorkScopeDispatchOutcome
    pub released : Result E Bool
    pub splits : scopes ≡ done ++ scope ∷ rest
    pub served : Served s done outcomes middle
    pub dispatch_is : dispatch_scope calls dispatcher scope middle ≡ (after, dispatched)
    pub release_is : calls.release scope dispatcher.lease_owner after ≡ (last, released)
    pub fails :
        ((f : E) × (released ≡ err f) × (e ≡ store f))
        ⊎ ((b : Bool) × (released ≡ ok b) × (dispatched ≡ err e))

  abbrev pub Says :
      S
      → List StoredWorkScope
      → WorkScopeDispatchOutcome
      → S
      → Result Error WorkScopeDispatchOutcome
      → Type 0
  Says s scopes sums last (ok total) =
      (served : List Serving) × Served s scopes served last × AddsUp sums served total
  Says s scopes sums last (err e) = StopsAt s scopes last e

  AddsUp-cons :
      (sums dispatched total : WorkScopeDispatchOutcome) (held : Bool) (served : List Serving)
      → AddsUp (scope_outcome calls dispatcher held sums dispatched) served total
      → AddsUp sums ((held, dispatched) ∷ served) total
  unfolding sum_of
  AddsUp-cons sums dispatched total true served a = record {
    same_scopes = a.same_scopes;
    all_uploads = omega (arith, a.all_uploads);
    all_workflows = omega (arith, a.all_workflows);
    all_lost = omega (arith, a.all_lost);
  }
  AddsUp-cons sums dispatched total false served a = record {
    same_scopes = a.same_scopes;
    all_uploads = omega (arith, a.all_uploads);
    all_workflows = omega (arith, a.all_workflows);
    all_lost = omega (arith, a.all_lost);
  }

  Says-cons :
      (s after later last : S) (scope : StoredWorkScope) (scopes : List StoredWorkScope)
      (sums dispatched : WorkScopeDispatchOutcome) (is_released : Bool)
      (r : Result Error WorkScopeDispatchOutcome)
      → dispatch_scope calls dispatcher scope s ≡ (after, ok dispatched)
      → calls.release scope dispatcher.lease_owner after ≡ (later, ok is_released)
      → Says later scopes (scope_outcome calls dispatcher is_released sums dispatched) last r
      → Says s (scope ∷ scopes) sums last r
  Says-cons s after later last scope scopes sums dispatched is_released (ok total) d p
        (served, done, adds) =
      (
        (is_released, dispatched) ∷ served,
        one_more s after later last scope scopes dispatched is_released served d p done,
        AddsUp-cons sums dispatched total is_released served adds,
      )
  Says-cons s after later last scope scopes sums dispatched is_released (err e) d p h = record {
    done = scope ∷ h.done;
    scope = h.scope;
    rest = h.rest;
    middle = h.middle;
    after = h.after;
    outcomes = (is_released, dispatched) ∷ h.outcomes;
    dispatched = h.dispatched;
    released = h.released;
    splits = ap (λ l. scope ∷ l) h.splits;
    served =
        one_more s after later h.middle scope h.done dispatched is_released h.outcomes d p h.served;
    dispatch_is = h.dispatch_is;
    release_is = h.release_is;
    fails = h.fails;
  }

  step-Says :
      (s : S) (scope : StoredWorkScope) (scopes : List StoredWorkScope)
      (sums : WorkScopeDispatchOutcome) (dispatched : S × Result Error WorkScopeDispatchOutcome)
      (released : S × Result E Bool)
      (rest : Bool → WorkScopeDispatchOutcome → S × Result Error WorkScopeDispatchOutcome)
      → dispatch_scope calls dispatcher scope s ≡ dispatched
      → calls.release scope dispatcher.lease_owner dispatched.0 ≡ released
      → ((b : Bool) (done : WorkScopeDispatchOutcome)
          → Says released.0 scopes
              (scope_outcome calls dispatcher b sums done)
              (rest b done).0
              (rest b done).1)
      → let (last, r) = scope_step calls dispatcher dispatched.1 released rest in
        Says s (scope ∷ scopes) sums last r
  step-Says s scope scopes sums (after, ok done) (later, ok b) rest d p h =
      Says-cons s after later (rest b done).0 scope scopes sums done b (rest b done).1 d p
        (h b done)
  step-Says s scope scopes sums (after, dispatched) (later, err f) rest d p h = record {
    done = [];
    scope = scope;
    rest = scopes;
    middle = s;
    after = after;
    outcomes = [];
    dispatched = dispatched;
    released = err f;
    splits = refl;
    served = none_left s;
    dispatch_is = d;
    release_is = p;
    fails = inl (f, refl, refl);
  }
  step-Says s scope scopes sums (after, err e) (later, ok b) rest d p h = record {
    done = [];
    scope = scope;
    rest = scopes;
    middle = s;
    after = after;
    outcomes = [];
    dispatched = err e;
    released = ok b;
    splits = refl;
    served = none_left s;
    dispatch_is = d;
    release_is = p;
    fails = inr (b, refl, refl);
  }

  -- Every scope that a round comes to is released after its dispatch, also when the dispatch
  -- failed; the round stops at the first scope with an error; without one it serves all scopes.
  -- It then adds the uploads and the workflows of the scopes to the numbers that it began with,
  -- and their lost leases, with one more for each scope whose own lease was lost; the number of
  -- scopes is kept.
  pub dispatch_scopes-Says :
      (scopes : List StoredWorkScope) (s : S) (sums : WorkScopeDispatchOutcome)
      → let (last, r) = dispatch_scopes calls dispatcher scopes s sums in Says s scopes sums last r
  unfolding dispatch_scopes sum_of
  dispatch_scopes-Says [] s sums = (
    [],
    none_left s,
    record {
      same_scopes = refl;
      all_uploads = omega arith;
      all_workflows = omega arith;
      all_lost = omega arith;
    },
  )
  dispatch_scopes-Says (scope ∷ scopes) s sums =
      step-Says s scope scopes sums _ _ _ refl refl
        (λ b done. dispatch_scopes-Says scopes _ (scope_outcome calls dispatcher b sums done))
