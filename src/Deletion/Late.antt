-- ===== src/Deletion/Late.antt =====
-- A worker that claimed a job of app/services/jobs.py before app/services/deletion.py removed its document.
use document_intelligence_mv.Prelude.{
  ℕ, ◌≡◌, ◌≢◌, refl, ap, Bool, true, false, some, ◌∷◌, Text, select, Bool-cases, inl, inr, All, In,
  All-In, All-of-In, In-select, In-select_intro, first-All, update_where-none, ◌==◌, nat_eq,
  text_eq, option_eq, arith, if◌then◌else◌,
}
use document_intelligence_mv.Errors.{Error, returns}
use document_intelligence_mv.Models.{Document, IngestionJob, job_status_eq, is_live_document}
use document_intelligence_mv.Floats.{Floats}
use document_intelligence_mv.Jobs.{clashes, finish, finished_job, is_held}
use document_intelligence_mv.Jobs.Invariant.{IsQueue, same_row}
use document_intelligence_mv.Actions.{pure, ◌>>=◌}
use document_intelligence_mv.Lexical.Isolation.{first-In}
use document_intelligence_mv.Processing as P
use document_intelligence_mv.Processing.{
  ProcessingOutcome, process_job, process_found, skipped, is_job_document, process_live,
}
use document_intelligence_mv.World.{World}
use document_intelligence_mv.Worker.{Turn, handle_job, merge, merge_job, finish_in}
use document_intelligence_mv.Worker.Merging.{IsInHand, live_rows_differ, any-none}
use document_intelligence_mv.Deletion.{Services, DeletionOutcome, delete_document}
use document_intelligence_mv.Deletion.Gone.{
  IsGone, OfOthers, delete_document-IsGone, delete_document-row,
}

module _ (𝓕 : Floats) {O S : Type 0} (s : P.Services O S 𝓕.Float) (fresh : ℕ → ℕ)
    (profile_id now : ℕ) where
  -- A job whose document is deleted is skipped: tables, objects and index stay.
  process_job-skips :
      (job : IngestionJob) (x : Document) (w : World O S 𝓕.Float)
      → In x w.db.documents
      → x.id ≡ job.document_id
      → x.tenant_id ≡ job.tenant_id
      → All (λ (d : Document). d.id ≡ job.document_id → is_live_document d ≡ false) w.db.documents
      → (d : Document) × (process_job 𝓕 s fresh profile_id now job w
          ≡ (w, returns (skipped 𝓕 s fresh profile_id now d)))
  unfolding process_job ◌>>=◌
  process_job-skips job x w i same_id same_tenant deleted =
      let (d, e) =
        first-In (select (is_job_document 𝓕 s fresh profile_id now job) w.db.documents) x (
          In-select_intro (is_job_document 𝓕 s fresh profile_id now job) w.db.documents x i
            (ground arith)) in
      let dead =
        first-All (λ y. is_live_document y ≡ false)
          (select (is_job_document 𝓕 s fresh profile_id now job) w.db.documents)
          (All-of-In (λ y. is_live_document y ≡ false)
            (select (is_job_document 𝓕 s fresh profile_id now job) w.db.documents)
            (λ y j.
              let (k, t) =
                In-select (is_job_document 𝓕 s fresh profile_id now job) w.db.documents y j in
              All-In (λ (d : Document). d.id ≡ job.document_id → is_live_document d ≡ false)
                w.db.documents deleted k (ground arith)))
          e in
      (d, rw e (by_state (is_live_document d) d dead))
    where
      by_state :
          (b : Bool) (d : Document)
          → b ≡ false
          → (if b
                then process_live 𝓕 s fresh profile_id now d
                else pure (skipped 𝓕 s fresh profile_id now d))
              w
            ≡ (w, returns (skipped 𝓕 s fresh profile_id now d))
      by_state true d e = cc e
      by_state false d e = refl

module _ (𝓕 : Floats) {O S : Type 0} (services : P.Services O S 𝓕.Float) (s : Services O S 𝓕.Float)
    (worker : Text) (retry_delay : ℕ) (type_name message : Error → Text) (t : Turn)
    (job : IngestionJob) (w w' : World O S 𝓕.Float) (o : DeletionOutcome) (q : IsQueue w.db.jobs)
    (h : IsInHand worker w.db.jobs job) (deletion_time : ℕ)
    (deletion : delete_document s deletion_time job.tenant_id job.document_id w
      ≡ (w', returns (some o))) where
  gone : IsGone s deletion_time job.tenant_id job.document_id w.db w'.db
  gone = delete_document-IsGone s deletion_time job.tenant_id job.document_id w w' o deletion

  no_clash : (j : IngestionJob) → In j w'.db.jobs → clashes job j ≡ false
  no_clash j i = elim (Bool-cases (clashes job j)) [ inl e ↦ absurd (differs (same e)) | inr f ↦ f ]
    where
      not_its : j.tenant_id ≡ job.tenant_id → j.document_id ≢ job.document_id
      not_its =
          All-In
            (λ (j : IngestionJob). j.tenant_id ≡ job.tenant_id → j.document_id ≢ job.document_id)
            w'.db.jobs gone.no_job i

      of_others : OfOthers job.tenant_id job.document_id j.tenant_id j.document_id
      of_others = elim (nat_eq.dec j.tenant_id job.tenant_id) [
        | yes p ↦ inr (not_its p)
        | no n ↦ inl n
      ]

      left : In j w.db.jobs
      left = (gone.other_jobs j of_others).1 i

      differs : j ≢ job
      differs e =
          not_its (ap (λ (x : IngestionJob). x.tenant_id) e)
            (ap (λ (x : IngestionJob). x.document_id) e)

      same : clashes job j ≡ true → j ≡ job
      same e = elim (Bool-cases (j.id == job.id)) [
        | inl k ↦ same_row w.db.jobs j job q.apart left h.stands (ground arith)
        | inr k ↦
            live_rows_differ w.db.jobs j job q.apart left h.stands (ground arith)
              (ground (arith, h.running)) (ground arith)
      ]

  revived : World O S 𝓕.Float
  revived = record w' { db = record w'.db { jobs = job ∷ w'.db.jobs } }

  merge-new : merge job w'.db ≡ returns (record w'.db { jobs = job ∷ w'.db.jobs })
  unfolding merge_job
  merge-new =
      rw
        (
          any-none (λ j. j.id == job.id) w'.db.jobs (λ j i. ground (arith, no_clash j i)),
          any-none (clashes job) w'.db.jobs no_clash,
        )
        refl

  finish_in-new :
      finish_in t.now job worker (record w'.db { jobs = job ∷ w'.db.jobs })
      ≡ record w'.db { jobs = finished_job t.now job ∷ w'.db.jobs }
  unfolding finish
  finish_in-new =
      let held : is_held job.tenant_id job.id worker job ≡ true =
        ground (arith, h.running, h.holder) in
      let unheld =
        update_where-none (is_held job.tenant_id job.id worker) (finished_job t.now) w'.db.jobs (
          any-none (is_held job.tenant_id job.id worker) w'.db.jobs
            (λ j i. ground (arith, no_clash j i))) in
      rw (held, unheld) refl

  -- A worker has a job in hand; its document is then deleted, with the job's row; then the worker handles its copy
  -- of the job. The document is skipped, objects and index stay as the deletion left them, and so do the
  -- tables but for one row: the job that was deleted stands in the queue again, as finished.
  pub handle_job-delete_document :
      handle_job 𝓕 services worker retry_delay type_name message t job w'
      ≡ (record w' { db = record w'.db { jobs = finished_job t.now job ∷ w'.db.jobs } }, returns tt)
  unfolding handle_job ◌>>=◌ revived
  handle_job-delete_document =
      let (x, i, same_id, same_tenant) =
        delete_document-row s deletion_time job.tenant_id job.document_id w w' o deletion in
      let (d, e) =
        process_job-skips 𝓕 services t.fresh t.profile_id t.now job x revived i same_id same_tenant
          gone.deleted in
      rw (merge-new, e, finish_in-new) refl
