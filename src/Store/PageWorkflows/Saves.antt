-- ===== src/Store/PageWorkflows/Saves.antt =====
-- What the revision of a stored page workflow is good for, in crates/ocr-store/src/lib.rs: of all
-- saves that start from one revision, at most one goes through.
use document_intelligence.Base.{
  ℕ, suc, ◌+◌, ◌≤◌, ◌<◌, ◌≡◌, ◌≢◌, refl, sym, ap, subst, ◌∙◌, true, false, not, List, [], some,
  arith, Result, ok, ◌==◌, sort_by_key, Bool-cases, inl, inr,
}
use mathlib.Core.Option.{some-injective}
use document_intelligence.Base.Text.{str_eq, str_eq_iff}
use document_intelligence.Domain.Ids.{JobId}
use document_intelligence.Domain.SemanticMemory.{pos}
use document_intelligence.PageWorkflow.{PageWorkflow}
use document_intelligence.PageWorkflow.Invariant.{IsValid, IsValid-try_from}
use document_intelligence.Store.Values.{
  Error, StoredWorkScope, StoredPageWorkflow, StoredPageArtifact, SavePageWorkflowOutcome, saved,
}
use document_intelligence.Store.Tables.{
  Database, PageWorkflowRow, find_row, update_row, find_row-update_self, find_row_also,
  find_row-update_other,
}
use document_intelligence.Store.Transactions.{
  Leaves, Leaves-end, Leaves-validated, Leaves-found, Leaves-branch, Leaves-commit, found, branch,
  validated, commit,
}
use document_intelligence.Store.Artifacts.{
  validate_page_artifact_batch, validate_batch_members, repeats_neighbour,
}
use document_intelligence.Store.PageWorkflows.{
  has_workflow, load_page_workflow, next_row, write_workflow, save_page_workflow_with_artifacts,
  serialize_page_workflow, stored_page_workflow, insert_artifacts,
}
use document_intelligence.Store.PageWorkflows.Revisions.{WorkflowCall, IsFrom, run, run-IsFrom}

module _ (written_len stored_len : PageWorkflow → ℕ) (scope : StoredWorkScope) (id : JobId)
    (expected : ℕ) (workflow : PageWorkflow) (artifacts : List StoredPageArtifact) where
  abbrev save : Database → Database × Result Error SavePageWorkflowOutcome
  save =
      save_page_workflow_with_artifacts written_len stored_len scope id (pos expected) workflow
        artifacts

  -- A save that goes through leaves the next revision.
  abbrev Advances : Database → Result Error SavePageWorkflowOutcome → Type 0
  Advances after (ok (saved stored)) = IsFrom scope id (suc expected) after.page_workflows
  Advances after _ = Unit

  save-Advances : (db : Database) → Leaves Advances (save db)
  unfolding save_page_workflow_with_artifacts write_workflow
  save-Advances db =
      Leaves-branch Advances _ _ _ (λ t. Leaves-end Advances _ _ tt)
        λ t.
          Leaves-validated Advances _ _ _ (λ x. tt)
            λ v.
              Leaves-validated Advances _ _ _ (λ x. tt)
                λ v.
                  Leaves-found Advances _ _ _ (λ e. Leaves-end Advances _ _ tt)
                    λ row e.
                      Leaves-branch Advances _ _ _ (λ t. Leaves-end Advances _ _ tt)
                        λ t.
                          Leaves-found Advances _ _ _ (λ e. Leaves-end Advances _ _ tt)
                            λ rows d.
                              Leaves-found Advances _ _ _ (λ e. Leaves-end Advances _ _ tt)
                                λ current d.
                                  Leaves-commit Advances _ _ _ _ (λ x. tt)
                                    λ x y.
                                      let written =
                                        find_row-update_self (has_workflow scope id)
                                          (next_row workflow) db.page_workflows row e refl in
                                      (next_row workflow row, written, ground (arith, t))

  -- A save from a revision that is behind does not go through.
  abbrev Refuses : Database → Result Error SavePageWorkflowOutcome → Type 0
  Refuses after (ok (saved stored)) = ⊥
  Refuses after _ = Unit

  save-Refuses :
      (db : Database) → IsFrom scope id (suc expected) db.page_workflows → Leaves Refuses (save db)
  unfolding save_page_workflow_with_artifacts
  save-Refuses db (current, found, low) =
      Leaves-branch Refuses _ _ _ (λ t. Leaves-end Refuses _ _ tt)
        λ t.
          Leaves-validated Refuses _ _ _ (λ x. tt)
            λ v.
              Leaves-validated Refuses _ _ _ (λ x. tt)
                λ v.
                  Leaves-found Refuses _ _ _ (λ e. Leaves-end Refuses _ _ tt)
                    λ row e.
                      Leaves-branch Refuses _ _ _ (λ t. Leaves-end Refuses _ _ tt)
                        λ t. absurd (behind row (some-injective current row (sym found ∙ e)) t)
    where
      behind : (row : PageWorkflowRow) → current ≡ row → ¬ (not (row.revision == expected) ≡ false)
      behind row same t = ground (arith, t, ap (λ r. r.revision) same, low)

module _ (written_len stored_len : PageWorkflow → ℕ) (scope : StoredWorkScope) (id : JobId)
    (expected : ℕ) where
  -- Of two saves that start from the same revision, at most one goes through, whatever other calls
  -- come between them: no update of another worker is lost.
  pub save_once :
      (db : Database) (calls : List WorkflowCall) (w v : PageWorkflow)
      (artifacts others : List StoredPageArtifact) (stored : StoredPageWorkflow)
      → (save written_len stored_len scope id expected w artifacts db).1 ≡ ok (saved stored)
      → (again : StoredPageWorkflow)
      → (save written_len stored_len scope id expected v others (
          run written_len stored_len
            (save written_len stored_len scope id expected w artifacts db).0
            calls)).1
        ≢ ok (saved again)
  save_once db calls w v artifacts others stored first again second =
      let after = (save written_len stored_len scope id expected w artifacts db).0 in
      let advanced : IsFrom scope id (suc expected) after.page_workflows =
        subst (Advances written_len stored_len scope id expected w artifacts after) first
          (save-Advances written_len stored_len scope id expected w artifacts db).holds in
      let later = run-IsFrom written_len stored_len scope id (suc expected) after calls advanced in
      subst
        (Refuses written_len stored_len scope id expected v others
          (save written_len stored_len scope id expected v others
            (run written_len stored_len after calls)).0)
        second
        (save-Refuses written_len stored_len scope id expected v others
          (run written_len stored_len after calls) later).holds

  serialized :
      (w : PageWorkflow)
      → (0 < written_len w) × (written_len w ≤ 26_2144)
      → serialize_page_workflow written_len stored_len w ≡ ok tt
  unfolding serialize_page_workflow
  serialized w h = ground (arith, h)

  decoded_next :
      (w : PageWorkflow) (row : PageWorkflowRow)
      → row.revision ≡ expected
      → IsValid w
      → (0 < stored_len w) × (stored_len w ≤ 26_2144)
      → stored_page_workflow written_len stored_len (next_row w row)
        ≡ ok (record { workflow = w; revision = expected + 1 })
  unfolding stored_page_workflow
  decoded_next w row current v h =
      let valid = IsValid-try_from w v in ground (arith, h, valid, current)

  -- The tables after a save from the current revision.
  abbrev saved_in : PageWorkflow → Database → Database
  saved_in w db = record db {
    page_workflows = update_row (has_workflow scope id) (next_row w) db.page_workflows;
  }

  save-saved_in :
      (db : Database) (w : PageWorkflow) (row : PageWorkflowRow)
      → find_row (has_workflow scope id) db.page_workflows ≡ some row
      → row.revision ≡ expected
      → w.job_id.text ≡ id.text
      → IsValid w
      → (0 < written_len w) × (written_len w ≤ 26_2144)
      → (0 < stored_len w) × (stored_len w ≤ 26_2144)
      → save written_len stored_len scope id expected w [] db
        ≡ (saved_in w db, ok (saved (record { workflow = w; revision = expected + 1 })))
  unfolding save_page_workflow_with_artifacts write_workflow found branch validated commit
      insert_artifacts validate_page_artifact_batch validate_batch_members repeats_neighbour
      sort_by_key
  save-saved_in db w row e current own v written stored =
      let same = (str_eq_iff w.job_id.text id.text).1 own in
      let is_current : (row.revision == expected) ≡ true = ground (arith, current) in
      let also =
        find_row_also (has_workflow scope id) (λ r. r.revision == expected) db.page_workflows row e
          is_current in
      rw (same, serialized w written, e, is_current, also, decoded_next w row current v stored) refl

  loads_saved :
      (db : Database) (w : PageWorkflow) (row : PageWorkflowRow)
      → find_row (has_workflow scope id) db.page_workflows ≡ some row
      → row.revision ≡ expected
      → IsValid w
      → (0 < stored_len w) × (stored_len w ≤ 26_2144)
      → load_page_workflow written_len stored_len scope id (saved_in w db)
        ≡ ok (some (record { workflow = w; revision = expected + 1 }))
  unfolding load_page_workflow
  loads_saved db w row e current v stored =
      let there =
        find_row-update_self (has_workflow scope id) (next_row w) db.page_workflows row e refl in
      ground (arith, there, decoded_next w row current v stored)

  -- The workflow of another job is as it was.
  loads_other :
      (db : Database) (w : PageWorkflow) (s : StoredWorkScope) (i : JobId)
      → i.text ≢ id.text
      → load_page_workflow written_len stored_len s i (saved_in w db)
        ≡ load_page_workflow written_len stored_len s i db
  unfolding load_page_workflow
  loads_other db w s i other =
      let kept : find_row (has_workflow s i)
            (update_row (has_workflow scope id) (next_row w) db.page_workflows)
          ≡ find_row (has_workflow s i) db.page_workflows =
        find_row-update_other (has_workflow s i) (has_workflow scope id) (next_row w)
          db.page_workflows (λ r h. foreign_row s i r other h) (λ r. refl) in
      rw (load_page_workflow, kept) refl
    where
      foreign_row :
          (s : StoredWorkScope) (i : JobId) (r : PageWorkflowRow)
          → i.text ≢ id.text
          → has_workflow scope id r ≡ true
          → has_workflow s i r ≡ false
      foreign_row s i r other h = elim (Bool-cases (str_eq r.job_id.text i.text)) [
        | inl t ↦
            (let own : str_eq r.job_id.text id.text ≡ true = ground (arith, h) in
              absurd (
                other (
                  sym ((str_eq_iff r.job_id.text i.text).0 t)
                  ∙ (str_eq_iff r.job_id.text id.text).0 own)))
        | inr t ↦ ground (arith, t)
      ]

  -- A save from the current revision goes through: a valid workflow of the job, whose text is not
  -- empty and not too long, is stored with the next revision, where it has no artifacts to insert.
  -- A load after it gives this workflow, and a load for another job gives what it gave before.
  pub save-current :
      (db : Database) (w : PageWorkflow) (row : PageWorkflowRow) (s : StoredWorkScope) (i : JobId)
      → find_row (has_workflow scope id) db.page_workflows ≡ some row
      → row.revision ≡ expected
      → w.job_id.text ≡ id.text
      → IsValid w
      → (0 < written_len w) × (written_len w ≤ 26_2144)
      → (0 < stored_len w) × (stored_len w ≤ 26_2144)
      → i.text ≢ id.text
      → let (after, r) = save written_len stored_len scope id expected w [] db in
        (r ≡ ok (saved (record { workflow = w; revision = expected + 1 })))
        × (load_page_workflow written_len stored_len scope id after
            ≡ ok (some (record { workflow = w; revision = expected + 1 })))
        × (load_page_workflow written_len stored_len s i after
            ≡ load_page_workflow written_len stored_len s i db)
  save-current db w row s i e current own v written stored other =
      let done = save-saved_in db w row e current own v written stored in
      rw done (refl, loads_saved db w row e current v stored, loads_other db w s i other)
