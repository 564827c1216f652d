-- ===== src/Service/PageRunner/Outcomes.antt =====
-- What the loop of `run_once` in crates/ocr-service/src/page_runner.rs records.
use mathlib.Core.Path.{ap₂}
use document_intelligence.Base.{
  ℕ, ◌-◌, ◌≡◌, ◌≢◌, inl, inr, refl, sym, ap, ◌∙◌, Bool, true, false, ◌||◌, List, [], ◌∷◌, ◌++◌,
  some, arith, any, All, All-imp, get_elem?, append_nil, Result, ok, err, occurrences, IsDistinct,
}
use document_intelligence.Domain.Errors.{Error}
use document_intelligence.PageWorkflow.{PageWorkflow, PageTask, active_progress, activity_key}
use document_intelligence.PageWorkflow.Active.{active_progress_iff}
use document_intelligence.PageWorkflow.Records.{
  Report, success, record_report, reported, Recorded, record_report_outcomes,
}
use document_intelligence.Service.PageRunner.{
  PageProcessError, record_outcome, record_outcomes, pushed, is_limited,
}

-- The index of a task's page.
abbrev pub place : PageTask → ℕ
place t = t.page - 1

abbrev pub HasActive : PageWorkflow → PageTask → Type 0
HasActive w t = active_progress w t ≡ ok (place t)

-- A report on one page leaves the tasks of the others active.
others-active :
    (r : Report) (w w' : PageWorkflow) (t u : PageTask)
    → Recorded r w w' t
    → place u ≢ place t
    → HasActive w u
    → HasActive w' u
others-active r w w' t u done apart h =
    let a = (active_progress_iff w u (place u)).0 h in
    (active_progress_iff w' u (place u)).1 (record {
      live = done.same_cancelled ∙ a.live;
      keyed = a.keyed ∙ ap (λ j. activity_key j u.page u.attempt) (sym done.same_job);
      numbered = a.numbered;
      found = done.others (place u) apart ∙ a.found;
    })

-- A task and what became of it.
abbrev pub Outcome : Type 0 → Type 0
Outcome A = PageTask × Result PageProcessError A

or_false : (b : Bool) → b ≡ (b || false)
or_false true = refl
or_false false = refl

or_assoc : (a b c : Bool) → ((a || b) || c) ≡ (a || (b || c))
or_assoc true b c = refl
or_assoc false b c = refl

module _ {A : Type 0} where
  -- The report that an outcome makes.
  abbrev pub report_of : Result PageProcessError A → Report
  report_of (ok artifact) = success
  report_of (err PageProcessError.retryable) = Report.retryable
  report_of (err PageProcessError.rate_limited) = Report.retryable
  report_of (err PageProcessError.permanent) = Report.permanent

  record_outcome-report :
      (w : PageWorkflow) (t : PageTask) (o : Result PageProcessError A)
      → record_outcome w t o ≡ record_report (report_of o) w t
  unfolding record_outcome record_report
  record_outcome-report w t (ok artifact) = refl
  record_outcome-report w t (err PageProcessError.retryable) = refl
  record_outcome-report w t (err PageProcessError.rate_limited) = refl
  record_outcome-report w t (err PageProcessError.permanent) = refl

  -- What the loop gathers.
  abbrev pub artifacts_of : List (Outcome A) → List A
  artifacts_of [] = []
  artifacts_of ((t, ok artifact) ∷ os) = artifact ∷ artifacts_of os
  artifacts_of ((t, err e) ∷ os) = artifacts_of os

  -- A page was rate limited that may be tried again.
  abbrev pub any_limited : ℕ → List (Outcome A) → Bool
  any_limited m os = any (λ o. is_limited m o.0 o.1) os

  -- The workflow after the loop: the page of each outcome has the progress that the outcome
  -- reports, and no other page and no other field has changed.
  pub record IsRecorded (w w' : PageWorkflow) (os : List (Outcome A)) : Type 0 where
    pub pages :
        All
          (λ o.
            get_elem? w'.pages (place o.0)
            ≡ some (reported (report_of o.1) w.max_attempts o.0.attempt))
          os
    pub others : (k : ℕ) → All (λ o. k ≢ place o.0) os → get_elem? w'.pages k ≡ get_elem? w.pages k
    pub same_job : w'.job_id ≡ w.job_id
    pub same_attempts : w'.max_attempts ≡ w.max_attempts
    pub same_cancelled : w'.cancelled ≡ w.cancelled

  absent-apart :
      (k : ℕ) (os : List (Outcome A))
      → occurrences (λ o. place o.0) k os ≡ 0
      → All (λ o. k ≢ place o.0) os
  absent-apart k [] h = tt
  absent-apart k (o ∷ os) h = (λ e. ground (arith, h, e), absent-apart k os (ground (arith, h)))

  pushed-artifacts :
      (xs : List A) (t : PageTask) (o : Result PageProcessError A) (os : List (Outcome A))
      → pushed xs o ++ artifacts_of os ≡ xs ++ artifacts_of ((t, o) ∷ os)
  pushed-artifacts xs t (err e) os = refl
  pushed-artifacts [] t (ok a) os = refl
  pushed-artifacts (b ∷ xs) t (ok a) os = ap (λ l. b ∷ l) (pushed-artifacts xs t (ok a) os)

  step-IsRecorded :
      (w w₁ w' : PageWorkflow) (o : Outcome A) (os : List (Outcome A))
      → Recorded (report_of o.1) w w₁ o.0
      → All (λ p. place o.0 ≢ place p.0) os
      → IsRecorded w₁ w' os
      → IsRecorded w w' (o ∷ os)
  step-IsRecorded w w₁ w' o os done apart rest = record {
    pages = (
      rest.others (place o.0) apart ∙ done.page,
      All-imp
          (λ p.
            get_elem? w'.pages (place p.0)
            ≡ some (reported (report_of p.1) w₁.max_attempts p.0.attempt))
          (λ p.
            get_elem? w'.pages (place p.0)
            ≡ some (reported (report_of p.1) w.max_attempts p.0.attempt))
          (λ p h. h ∙ ap (λ m. some (reported (report_of p.1) m p.0.attempt)) done.same_attempts) os
          rest.pages,
    );
    others = λ k h. rest.others k h.1 ∙ done.others k h.0;
    same_job = rest.same_job ∙ done.same_job;
    same_attempts = rest.same_attempts ∙ done.same_attempts;
    same_cancelled = rest.same_cancelled ∙ done.same_cancelled;
  }

  rest-active :
      (r : Report) (w w₁ : PageWorkflow) (t : PageTask) (os : List (Outcome A))
      → Recorded r w w₁ t
      → All (λ p. place t ≢ place p.0) os
      → All (λ p. HasActive w p.0) os
      → All (λ p. HasActive w₁ p.0) os
  rest-active r w w₁ t [] done apart h = tt
  rest-active r w w₁ t (p ∷ os) done apart h = (
    others-active r w w₁ t p.0 done (λ e. apart.0 (sym e)) h.0,
    rest-active r w w₁ t os done apart.1 h.1,
  )

  run-step :
      (w w₁ : PageWorkflow) (xs : List A) (limited : Bool) (t : PageTask)
      (o : Result PageProcessError A) (os : List (Outcome A)) (w' : PageWorkflow)
      → (record_report (report_of o) w t).0 ≡ w₁
      → (record_report (report_of o) w t).1 ≡ ok tt
      → w₁.max_attempts ≡ w.max_attempts
      → record_outcomes w₁ (pushed xs o) (limited || is_limited w₁.max_attempts t o) os
        ≡ ok (
          w',
          pushed xs o ++ artifacts_of os,
          (limited || is_limited w₁.max_attempts t o) || any_limited w₁.max_attempts os,
        )
      → record_outcomes w xs limited ((t, o) ∷ os)
        ≡ ok (
          w',
          xs ++ artifacts_of ((t, o) ∷ os),
          limited || any_limited w.max_attempts ((t, o) ∷ os),
        )
  unfolding record_outcomes
  run-step w w₁ xs limited t o os w' same accepted attempts rest =
      let flags : ((limited || is_limited w₁.max_attempts t o) || any_limited w₁.max_attempts os)
          ≡ (limited || (is_limited w.max_attempts t o || any_limited w.max_attempts os)) =
        or_assoc limited (is_limited w₁.max_attempts t o) (any_limited w₁.max_attempts os)
        ∙ ap (λ m. limited || (is_limited m t o || any_limited m os)) attempts in
      ap go (record_outcome-report w t o)
      ∙ ap₂ (λ v r. go (v, r)) same accepted
      ∙ rest
      ∙ ap₂ (λ l b. ok (w', l, b)) (pushed-artifacts xs t o os) flags
    where
      go : PageWorkflow × Result Error (Unit {0}) → Result Error (PageWorkflow × List A × Bool)
      go done = elim done.1 [
        | err e ↦ err e
        | ok _ ↦
            record_outcomes done.0 (pushed xs o) (limited || is_limited done.0.max_attempts t o) os
      ]

  -- The loop from any list of artifacts and either value of the flag.
  pub record_outcomes-IsRecorded :
      (w : PageWorkflow) (xs : List A) (limited : Bool) (os : List (Outcome A))
      → All (λ o. HasActive w o.0) os
      → IsDistinct (λ o. place o.0) os
      → (w' : PageWorkflow) × (record_outcomes w xs limited os
          ≡ ok (w', xs ++ artifacts_of os, limited || any_limited w.max_attempts os))
        × IsRecorded w w' os
  unfolding record_outcomes
  record_outcomes-IsRecorded w xs limited [] h d = (
    w,
    ap (λ l. ok (w, l, limited)) (sym (append_nil xs))
        ∙ ap (λ b. ok (w, xs ++ [], b)) (or_false limited),
    record {
      pages = tt;
      others = λ k h. refl;
      same_job = refl;
      same_attempts = refl;
      same_cancelled = refl;
    },
  )
  record_outcomes-IsRecorded w xs limited ((t, o) ∷ os) h d =
      elim (record_report_outcomes (report_of o) w t) [
        | inr (refused, same, idle) ↦ absurd (idle ((active_progress_iff w t (place t)).0 h.0))
        | inl (accepted, done) ↦
            (let w₁ = (record_report (report_of o) w t).0 in
              let gone : occurrences (λ (p : Outcome A). place p.0) (place t) os ≡ 0 =
                ground (arith, d (place t)) in
              let apart = absent-apart (place t) os gone in
              let active : All (λ p. HasActive w₁ p.0) os =
                rest-active (report_of o) w w₁ t os done apart h.1 in
              let rest =
                record_outcomes-IsRecorded w₁ (pushed xs o)
                  (limited || is_limited w₁.max_attempts t o) os active (λ k. omega (arith, d k)) in
              (
                rest.0,
                run-step w w₁ xs limited t o os rest.0 refl accepted done.same_attempts rest.1,
                step-IsRecorded w w₁ rest.0 (t, o) os done apart rest.2,
              ))
      ]
