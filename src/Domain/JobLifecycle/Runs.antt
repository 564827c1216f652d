-- ===== src/Domain/JobLifecycle/Runs.antt =====
-- What holds of a job over every sequence of requests.
use mathlib.Core.List.{Memᴰ}
use document_intelligence.Base.{
  ℕ, ◌+◌, ◌≤◌, ◌≡◌, refl, sym, ◌⊎◌, inl, inr, Bool, true, false, List, [], ◌∷◌, arith, ok, err,
}
use document_intelligence.Domain.Errors.{
  JobState, accepted, inspecting, processing, validating, cancelling, cancelled, rejected, partial,
  review_required, completed, invalid_job_transition,
}
use document_intelligence.Domain.JobLifecycle.{
  JobLifecycle, Request, move, cancel, transition_to, request_cancellation, new, apply, run,
  changed,
}

abbrev pub is_terminal : JobState → Bool
is_terminal cancelled = true
is_terminal rejected = true
is_terminal review_required = true
is_terminal completed = true
is_terminal _ = false

-- How far a job is at most from the end of its life.
abbrev room : JobState → ℕ
room accepted = 5
room inspecting = 4
room processing = 3
room validating = 2
room cancelling = 1
room partial = 1
room _ = 0

-- The changes of state along a run.
pub changes : JobLifecycle → List Request → ℕ
changes job [] = 0
changes job (r ∷ rs) = changed job.state (apply job r).state + changes (apply job r) rs

-- A refused transition leaves the job as it was and names the two states; an accepted one sets the state.
pub transition_to_outcomes :
    (job : JobLifecycle) (next : JobState)
    → ((transition_to job next).1 ≡ ok tt) × ((transition_to job next).0.state ≡ next)
      ⊎ ((transition_to job next).1 ≡ err (invalid_job_transition job.state next))
        × ((transition_to job next).0 ≡ job)
unfolding transition_to
transition_to_outcomes job next = ground arith

room-apply :
    (job : JobLifecycle) (r : Request)
    → changed job.state (apply job r).state + room (apply job r).state ≤ room job.state
unfolding apply transition_to request_cancellation
room-apply job (move next) = ground arith
room-apply job cancel = ground arith

room-run : (job : JobLifecycle) (rs : List Request) → changes job rs ≤ room job.state
unfolding changes
room-run job [] = omega arith
room-run job (r ∷ rs) = omega (arith, room-apply job r, room-run (apply job r) rs)

room_bounded : (s : JobState) → room s ≤ 5
room_bounded accepted = omega arith
room_bounded _ = omega arith

-- Whatever is asked of a job, in any order, its state changes at most five times.
pub changes_bounded : (job : JobLifecycle) (rs : List Request) → changes job rs ≤ 5
changes_bounded job rs = omega (arith, room-run job rs, room_bounded job.state)

terminal-apply :
    (job : JobLifecycle) (r : Request) → is_terminal job.state ≡ true → apply job r ≡ job
unfolding apply transition_to request_cancellation
terminal-apply job (move next) h = ground arith
terminal-apply job cancel h = ground arith

-- A job in one of the states Cancelled, Rejected, ReviewRequired and Completed stays as it is.
pub terminal_absorbs :
    (job : JobLifecycle) (rs : List Request) → is_terminal job.state ≡ true → run job rs ≡ job
unfolding run
terminal_absorbs job [] h = refl
terminal_absorbs job (r ∷ rs) h =
    let same = terminal-apply job r h in rw same (terminal_absorbs job rs h)

abbrev pub is_cancelled : JobState → Bool
is_cancelled cancelling = true
is_cancelled cancelled = true
is_cancelled _ = false

cancelled-apply :
    (job : JobLifecycle) (r : Request)
    → is_cancelled job.state ≡ true
    → is_cancelled (apply job r).state ≡ true
unfolding apply transition_to request_cancellation
cancelled-apply job (move next) h = ground arith
cancelled-apply job cancel h = ground arith

cancelled-run :
    (job : JobLifecycle) (rs : List Request)
    → is_cancelled job.state ≡ true
    → is_cancelled (run job rs).state ≡ true
unfolding run
cancelled-run job [] h = h
cancelled-run job (r ∷ rs) h = cancelled-run (apply job r) rs (cancelled-apply job r h)

cancel-cancelled :
    (job : JobLifecycle) {s : JobState}
    → (request_cancellation job).1 ≡ ok s
    → is_cancelled (request_cancellation job).0.state ≡ true
unfolding request_cancellation
cancel-cancelled job h = ground arith

-- Once a cancellation was granted, no requests lead anywhere but to Cancelling and Cancelled.
pub cancellation_is_final :
    (job : JobLifecycle) (rs : List Request) {s : JobState}
    → (request_cancellation job).1 ≡ ok s
    → is_cancelled (run (request_cancellation job).0 rs).state ≡ true
cancellation_is_final job rs h =
    cancelled-run (request_cancellation job).0 rs (cancel-cancelled job h)

-- `request_cancellation` grants what `transition_to` Cancelling grants and leaves the same job,
-- but on a Cancelled job, where it succeeds and the transition is refused.
pub request_cancellation-eq-transition_to :
    (job : JobLifecycle)
    → ((request_cancellation job).0 ≡ (transition_to job cancelling).0)
      × ((job.state ≡ cancelled)
            × ((request_cancellation job).1 ≡ ok cancelled)
            × ((transition_to job cancelling).1 ≡ err (invalid_job_transition cancelled cancelling))
          ⊎ ((request_cancellation job).1 ≡ ok cancelling)
            × ((transition_to job cancelling).1 ≡ ok tt)
          ⊎ ((request_cancellation job).1 ≡ err (invalid_job_transition job.state cancelling))
            × ((transition_to job cancelling).1
                ≡ err (invalid_job_transition job.state cancelling)))
unfolding request_cancellation transition_to
request_cancellation-eq-transition_to job = ground arith

-- The requests that have put a job where it is: each state was entered from an earlier one.
abbrev before_validation : JobState → Bool
before_validation completed = false
before_validation validating = false
before_validation _ = true

unvalidated-apply :
    (job : JobLifecycle) (r : Request)
    → before_validation job.state ≡ true
    → (r ≡ move validating) ⊎ (before_validation (apply job r).state ≡ true)
unfolding apply transition_to request_cancellation
unvalidated-apply job (move next) h = ground arith
unvalidated-apply job cancel h = ground arith

unvalidated-run :
    (job : JobLifecycle) (rs : List Request)
    → before_validation job.state ≡ true
    → before_validation (run job rs).state ≡ false
    → Memᴰ (move validating) rs
unfolding run
unvalidated-run job [] h e = cc
unvalidated-run job (r ∷ rs) h e = elim (unvalidated-apply job r h) [
  | inl p ↦ Memᴰ.head (sym p)
  | inr q ↦ Memᴰ.tail (unvalidated-run (apply job r) rs q e)
]

-- A new job is completed only if its validation was asked for.
pub completed_needs_validation :
    (rs : List Request) → (run new rs).state ≡ completed → Memᴰ (move validating) rs
unfolding new
completed_needs_validation rs h = unvalidated-run new rs refl (ground (arith, h))
