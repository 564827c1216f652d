-- ===== src/Domain/JobLifecycle/Tests.antt =====
-- Lives of a job, and the theorems at these inputs.
use document_intelligence.Base.{◌≡◌, refl, List, [], ◌∷◌, ok, err, ◌⊎◌}
use document_intelligence.Domain.Errors.{
  inspecting, processing, validating, cancelled, completed, invalid_job_transition,
}
use document_intelligence.Domain.JobLifecycle.{
  JobLifecycle, Request, move, cancel, transition_to, request_cancellation, new, apply, run,
}
use document_intelligence.Domain.JobLifecycle.Runs.{transition_to_outcomes}

abbrev happy : List Request
happy =
    move inspecting
    ∷ move processing
    ∷ move completed
    ∷ move validating
    ∷ move completed
    ∷ cancel
    ∷ []

abbrev late : List Request
late = move completed ∷ move cancelled ∷ cancel ∷ []

happy_completes : (run new happy).state ≡ completed
unfolding run apply transition_to request_cancellation new
happy_completes = refl

abbrev done : JobLifecycle
done = record { state = completed }

abbrev busy : JobLifecycle
busy = record { state = processing }

transition_to_outcomes_example :
    ((transition_to busy completed).1 ≡ ok tt)
      × ((transition_to busy completed).0.state ≡ completed)
    ⊎ ((transition_to busy completed).1 ≡ err (invalid_job_transition processing completed))
      × ((transition_to busy completed).0 ≡ busy)
transition_to_outcomes_example = transition_to_outcomes busy completed
