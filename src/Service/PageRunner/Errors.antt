-- ===== src/Service/PageRunner/Errors.antt =====
-- Which errors a whole round, `run_once` in crates/ocr-service/src/page_runner.rs, can end with.
use mathlib.Core.List.{Permᴰ}
use document_intelligence.Base.{
  ℕ, ◌≤◌, ◌≡◌, ◌≢◌, ◌⊎◌, inl, inr, refl, sym, ap, subst, ◌∙◌, Bool, true, false, ◌&&◌, List, [],
  ◌∷◌, Option, none, some, arith, Result, ok, err, ok_injective, Bool-cases, if-holds,
}
use document_intelligence.Domain.Errors.{Error}
use document_intelligence.PageWorkflow.{
  PageWorkflow, PageTask, PageWorkflowStatus, claim_ready, status,
}
use document_intelligence.PageWorkflow.Invariant.{IsValid}
use document_intelligence.PageWorkflow.Granted.{claim_ready-Granted}
use document_intelligence.Temporal.Activities.{PageRunnerOutcome, PageRunnerError}
use document_intelligence.Service.PageRunner.{
  PageStore, StoredPageWorkflow, SavePageWorkflowOutcome, saved, conflict, not_found,
  CheckpointedPageRunner, new_page_runner, record_outcomes, finish, is_running, record_step,
  process_step, claim_step, run_loaded, run_once,
}
use document_intelligence.Service.PageRunner.Outcomes.{Outcome, artifacts_of, any_limited}
use document_intelligence.Service.PageRunner.Rounds.{tasks_of, record_claimed}

module _ {S E A : Type 0} where
  -- What the runner relies on: the store decodes a workflow by `TryFrom`, a save returns the
  -- workflow that it was given, and every task that is processed has one outcome.
  pub record Reliable (store : PageStore S E A)
      (process_all : List PageTask → S → S × List (Outcome A)) : Type 0 where
    pub loads_valid :
        (s : S) (r : StoredPageWorkflow)
        → (store.load_page_workflow s).1 ≡ ok (some r)
        → IsValid r.workflow
    pub saves_given :
        (revision : ℕ) (w : PageWorkflow) (artifacts : List A) (s : S) (r : StoredPageWorkflow)
        → (store.save_page_workflow_with_artifacts revision w artifacts s).1 ≡ ok (saved r)
        → r.workflow ≡ w
    pub processes_each : (ts : List PageTask) (s : S) → Permᴰ ts (tasks_of (process_all ts s).1)

claimed_nothing :
    (w : PageWorkflow) (limit : ℕ)
    → w.cancelled ≡ true
    → 1 ≤ limit
    → limit ≤ 64
    → (claim_ready w limit).1 ≡ ok []
unfolding claim_ready
claimed_nothing w limit c low high = ground arith

module _ {S E : Type 0} where
  -- No error of the domain comes out.
  abbrev pub IsFine : S × Result (PageRunnerError E) PageRunnerOutcome → Type 0
  IsFine x = (e : Error) → x.1 ≢ err (PageRunnerError.domain e)

module _ (A : Type 0) where
  -- The outcomes of the tasks are all recorded.
  abbrev IsRecordable : PageWorkflow → List PageTask → Type 0
  IsRecordable w ts =
      (os : List (Outcome A))
      → Permᴰ ts (tasks_of os)
      → (r : PageWorkflow × List A × Bool) × (record_outcomes w [] false os ≡ ok r)

  -- A claim hands out nothing, or such tasks.
  abbrev IsGood : PageWorkflow × Result Error (List PageTask) → Type 0
  IsGood c = (c.1 ≡ ok []) ⊎ ((ts : List PageTask) × (c.1 ≡ ok ts) × IsRecordable c.0 ts)

  claim_ready-IsGood :
      (w : PageWorkflow) (limit : ℕ)
      → IsValid w
      → 1 ≤ limit
      → limit ≤ 64
      → IsGood (claim_ready w limit)
  claim_ready-IsGood w limit v low high = elim (Bool-cases w.cancelled) [
    | inl e ↦ inl (claimed_nothing w limit e low high)
    | inr e ↦
        (let (ts, claimed, granted) = claim_ready-Granted w limit v e low high in
          inr (
            ts,
            claimed,
            λ os p.
                (let (w', recorded, rest) = record_claimed w limit ts os v e low high claimed p in
                  ((w', artifacts_of os, any_limited w.max_attempts os), recorded)),
          ))
  ]

module _ {S E A : Type 0} (store : PageStore S E A)
    (process_all : List PageTask → S → S × List (Outcome A)) (runner : CheckpointedPageRunner)
    (reliable : Reliable store process_all) where
  finish-IsFine :
      (status : PageWorkflowStatus) (limited : Bool) (x : S × Result E SavePageWorkflowOutcome)
      → IsFine (finish store process_all runner status limited x)
  finish-IsFine status limited (s, err f) e h = cc
  finish-IsFine status limited (s, ok (saved stored)) e h =
      if-holds (IsFine {S = S} {E = E}) (limited && is_running status)
        (s, err PageRunnerError.rate_limited) (s, ok (PageRunnerOutcome.progressed status))
        (λ e h. cc) (λ e h. cc) e h
  finish-IsFine status limited (s, ok conflict) e h = cc
  finish-IsFine status limited (s, ok not_found) e h = cc

  record_step-IsFine :
      (stored : StoredPageWorkflow) (x : S × List (Outcome A))
      → (r : PageWorkflow × List A × Bool) → record_outcomes stored.workflow [] false x.1 ≡ ok r
      → IsFine (record_step store process_all runner stored x)
  unfolding record_step
  record_step-IsFine stored x r h = recorded (record_outcomes stored.workflow [] false x.1) h
    where
      recorded :
          (o : Result Error (PageWorkflow × List A × Bool))
          → o ≡ ok r
          → IsFine {S = S} {E = E} (elim o [
            | err e ↦ (x.0, err (PageRunnerError.domain e))
            | ok (w, artifacts, limited) ↦
                finish store process_all runner
                  (status w)
                  limited
                  (store.save_page_workflow_with_artifacts stored.revision w artifacts x.0)
          ])
      recorded (err f) h e k = cc
      recorded (ok (w, artifacts, limited)) h e k = finish-IsFine (status w) limited _ e k

  process_step-IsFine :
      (w : PageWorkflow) (ts : List PageTask) (x : S × Result E SavePageWorkflowOutcome)
      → ((r : StoredPageWorkflow) → x.1 ≡ ok (saved r) → r.workflow ≡ w)
      → IsRecordable A w ts
      → IsFine (process_step store process_all runner ts x)
  unfolding process_step
  process_step-IsFine w ts (s, err f) given good e h = cc
  process_step-IsFine w ts (s, ok (saved stored)) given good e h =
      let (r, recorded) = good (process_all ts s).1 (reliable.processes_each ts s) in
      record_step-IsFine stored (process_all ts s) r
        (ap (λ v. record_outcomes v [] false (process_all ts s).1) (given stored refl) ∙ recorded) e
        h
  process_step-IsFine w ts (s, ok conflict) given good e h = cc
  process_step-IsFine w ts (s, ok not_found) given good e h = cc

  claim_step-IsFine :
      (revision : ℕ) (c : PageWorkflow × Result Error (List PageTask)) (s : S)
      → IsGood A c
      → IsFine (claim_step store process_all runner revision c s)
  unfolding claim_step
  claim_step-IsFine revision (w, err f) s (inl h) e k = cc
  claim_step-IsFine revision (w, err f) s (inr (ts, h, good)) e k = cc
  claim_step-IsFine revision (w, ok []) s h e k = cc
  claim_step-IsFine revision (w, ok (t ∷ ts)) s (inl h) e k = cc
  claim_step-IsFine revision (w, ok (t ∷ ts)) s (inr (us, h, good)) e k =
      process_step-IsFine w (t ∷ ts) (store.save_page_workflow_with_artifacts revision w [] s)
        (λ r e. reliable.saves_given revision w [] s r e)
        (subst (IsRecordable A w) (sym (ok_injective (t ∷ ts) us h)) good) e k

  run_loaded-IsFine :
      (x : S × Result E (Option StoredPageWorkflow))
      → ((r : StoredPageWorkflow) → x.1 ≡ ok (some r) → IsValid r.workflow)
      → 1 ≤ runner.batch_size
      → runner.batch_size ≤ 64
      → IsFine (run_loaded store process_all runner x)
  unfolding run_loaded
  run_loaded-IsFine (s, err f) valid low high e h = cc
  run_loaded-IsFine (s, ok none) valid low high e h = cc
  run_loaded-IsFine (s, ok (some stored)) valid low high e h =
      claim_step-IsFine stored.revision (claim_ready stored.workflow runner.batch_size) s
        (claim_ready-IsGood A stored.workflow runner.batch_size (valid stored refl) low high) e h

  runner_bounds :
      (batch_size concurrency : ℕ)
      → ◌≡◌ {A = Result (PageRunnerError E) CheckpointedPageRunner}
          (new_page_runner batch_size concurrency)
          (ok runner)
      → (1 ≤ runner.batch_size) × (runner.batch_size ≤ 64)
  unfolding new_page_runner
  runner_bounds batch_size concurrency h = (ground arith, ground arith)

  -- A round never fails with an error of the domain: with a runner that `new` has made and a store
  -- that can be relied on, the claim is not refused, and no report of the round is stale, however
  -- the pages turn out and in whichever order, whatever other workers do to the store.
  pub run_once-no_domain :
      (batch_size concurrency : ℕ)
      → ◌≡◌ {A = Result (PageRunnerError E) CheckpointedPageRunner}
          (new_page_runner batch_size concurrency)
          (ok runner)
      → (s : S) (e : Error)
      → (run_once store process_all runner s).1 ≢ err (PageRunnerError.domain e)
  unfolding run_once
  run_once-no_domain batch_size concurrency made s =
      let (low, high) = runner_bounds batch_size concurrency made in
      run_loaded-IsFine (store.load_page_workflow s) (λ r e. reliable.loads_valid s r e) low high
