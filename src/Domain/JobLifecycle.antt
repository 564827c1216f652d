-- ===== src/Domain/JobLifecycle.antt =====
-- `JobLifecycle` of crates/ocr-domain/src/lib.rs. A method that takes `&mut self` returns the new
-- value beside its result.
pub mod Runs
pub mod Tests
use document_intelligence.Base.{
  ℕ, Bool, true, false, ◌||◌, List, [], ◌∷◌, if◌then◌else◌, ltb, Result, ok, err,
}
use document_intelligence.Domain.Errors.{
  Error, JobState, accepted, inspecting, processing, validating, cancelling, cancelled, rejected,
  partial, review_required, completed, invalid_initial_job_state, invalid_job_transition,
}

pub record JobLifecycle : Type 0 where
  pub state : JobState

-- the derived `PartialEq`
abbrev pub state_eq : JobState → JobState → Bool
state_eq accepted accepted = true
state_eq inspecting inspecting = true
state_eq processing processing = true
state_eq validating validating = true
state_eq cancelling cancelling = true
state_eq cancelled cancelled = true
state_eq rejected rejected = true
state_eq partial partial = true
state_eq review_required review_required = true
state_eq completed completed = true
state_eq _ _ = false

unfoldable pub is_allowed_transition : JobState → JobState → Bool
is_allowed_transition accepted inspecting = true
is_allowed_transition inspecting rejected = true
is_allowed_transition inspecting processing = true
is_allowed_transition processing validating = true
is_allowed_transition processing partial = true
is_allowed_transition validating completed = true
is_allowed_transition validating review_required = true
is_allowed_transition accepted cancelling = true
is_allowed_transition inspecting cancelling = true
is_allowed_transition processing cancelling = true
is_allowed_transition validating cancelling = true
is_allowed_transition cancelling cancelled = true
is_allowed_transition partial review_required = true
is_allowed_transition _ _ = false

unfoldable pub new : JobLifecycle
new = record { state = accepted }

-- `TryFrom<RawJobLifecycle>`: only a fresh job is deserialized.
unfoldable pub try_from : JobState → Result Error JobLifecycle
unfolding new
try_from state = if state_eq state accepted then ok new else err invalid_initial_job_state

unfoldable pub transition_to : JobLifecycle → JobState → JobLifecycle × Result Error (Unit {0})
unfolding is_allowed_transition
transition_to job next =
    if state_eq job.state next || is_allowed_transition job.state next
    then (record job { state = next }, ok tt)
    else (job, err (invalid_job_transition job.state next))

cancel_from : JobState → JobLifecycle → JobLifecycle × Result Error JobState
cancel_from accepted job = (record job { state = cancelling }, ok cancelling)
cancel_from inspecting job = (record job { state = cancelling }, ok cancelling)
cancel_from processing job = (record job { state = cancelling }, ok cancelling)
cancel_from validating job = (record job { state = cancelling }, ok cancelling)
cancel_from cancelling job = (job, ok cancelling)
cancel_from cancelled job = (job, ok cancelled)
cancel_from state job = (job, err (invalid_job_transition state cancelling))

unfoldable pub request_cancellation : JobLifecycle → JobLifecycle × Result Error JobState
unfolding cancel_from
request_cancellation job = cancel_from job.state job

-- What a caller may do to a job: ask for a state, or for its cancellation.
pub data Request : Type 0 where
  move : JobState → Request
  cancel : Request

-- The job after one request, and after many; a refused request is dropped.
unfoldable pub apply : JobLifecycle → Request → JobLifecycle
apply job (move next) = (transition_to job next).0
apply job cancel = (request_cancellation job).0

unfoldable pub run : JobLifecycle → List Request → JobLifecycle
run job [] = job
run job (r ∷ rs) = run (apply job r) rs

-- How often the state changed.
abbrev pub changed : JobState → JobState → ℕ
changed s t = if state_eq s t then 0 else 1
