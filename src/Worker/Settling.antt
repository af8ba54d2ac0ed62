-- ===== src/Worker/Settling.antt =====
-- `handle_job`, the loop's body of app/worker.py: the job's row before and after it.
pub mod Batch
use document_intelligence_mv.Prelude.{
  ℕ, ◌≡◌, ◌≢◌, ◌↔◌, ◌⊎◌, refl, sym, ap, subst, ◌∙◌, Bool, true, false, not, ◌&&◌, Option, none,
  some, List, [], ◌∷◌, Text, first, select, any, update_where, Bool-cases, inl, inr, All, In, Pairs,
  All-In, In-update_where, In-update_where_intro, update_where-others, ◌==◌, nat_eq, text_eq,
  option_eq, arith, if◌then◌else◌,
}
use document_intelligence_mv.Errors.{Error, Result, raises, returns, integrity_error}
use document_intelligence_mv.Models.{IngestionJob, JobStatus, job_status_eq}
use document_intelligence_mv.Floats.{Floats}
use document_intelligence_mv.Database.{Db}
use document_intelligence_mv.Jobs.{
  Rows, is_live, is_held, finish, fail, finished_job, failed_attempt,
}
use document_intelligence_mv.Jobs.Invariant.{IsQueue, Apart, same_row}
use document_intelligence_mv.Jobs.Invariant.Completion.{finish-IsQueue, fail-IsQueue}
use document_intelligence_mv.Jobs.Ownership.{held_alone}
use document_intelligence_mv.Actions.{Action, attempt, ◌>>=◌, ◌>>◌}
use document_intelligence_mv.Processing.{
  Services, ProcessingOutcome, process_job, mark_failed, follow_job,
}
use document_intelligence_mv.Processing.Frame.{process_job-jobs}
use document_intelligence_mv.World.{World, execute, execute_checked, in_transaction}
use document_intelligence_mv.Worker.{
  merge_job, merge, with_jobs, is_other_live, Turn, finish_in, work_on, record_failure, handle_job,
  failure_reason,
}
use document_intelligence_mv.Worker.Merging.{IsInHand, merge_job-same}
use document_intelligence_mv.Worker.Completing.{Settled, finish-Settled, fail-Settled}

module _ (𝓕 : Floats) {O S : Type 0} (s : Services O S 𝓕.Float) (worker : Text) (retry_delay : ℕ)
    (type_name message : Error → Text) where
  open 𝓕 use {Float}

  -- The two ways in which a job ends. The run returned and is committed; or it raised, the tables are rolled back
  -- to those before it, the failure is recorded in them, and what the run did to objects and index stays.
  abbrev pub IsFinished : Turn → IngestionJob → World O S Float → World O S Float → Type 0
  IsFinished t job w w' =
      (o : ProcessingOutcome) × (y : World O S Float) × (process_job 𝓕 s t.fresh t.profile_id t.now
          job w
        ≡ (y, returns o))
      × (w' ≡ record y { db = finish_in t.now job worker y.db })

  abbrev pub IsFailed : Turn → IngestionJob → World O S Float → World O S Float → Type 0
  IsFailed t job w w' =
      (e : Error) × (y : World O S Float) × (process_job 𝓕 s t.fresh t.profile_id t.now job w
        ≡ (y, raises e))
      × (w' ≡ record y {
        db =
            mark_failed t.failed_at job worker
              (failure_reason 𝓕 s worker retry_delay type_name message e) retry_delay w.db;
      })

  module _ (t : Turn) (job : IngestionJob) (w : World O S Float) (q : IsQueue w.db.jobs)
      (h : IsInHand worker w.db.jobs job) where
    merge-same : merge job w.db ≡ returns w.db
    merge-same =
        ap (with_jobs w.db) (merge_job-same w.db.jobs job q h.stands (ground (arith, h.running)))

    follow_job-jobs :
        (tenant document : ℕ) (x : Option IngestionJob × Rows) (db : Db Float)
        → (follow_job tenant document x db).jobs ≡ x.1
    follow_job-jobs tenant document (none, rows) db = refl
    follow_job-jobs tenant document (some j, rows) db = refl

    recorded :
        (e : Error) (y : World O S Float)
        → in_transaction
            (record_failure 𝓕 s worker retry_delay type_name message t job e)
            (record y { db = w.db })
          ≡ (
            record y {
              db =
                  mark_failed t.failed_at job worker
                    (failure_reason 𝓕 s worker retry_delay type_name message e)
                    retry_delay
                    w.db;
            },
            returns tt,
          )
    unfolding ◌>>=◌
    recorded e y = rw merge-same refl

    -- Whatever happens to a job that the worker has in hand, its handling returns, as finished or as failed.
    handle_job-Ends :
        (w' : World O S Float) × (handle_job 𝓕 s worker retry_delay type_name message t job w
          ≡ (w', returns tt))
        × (IsFinished t job w w' ⊎ IsFailed t job w w')
    unfolding handle_job ◌>>=◌
    handle_job-Ends = by_run (process_job 𝓕 s t.fresh t.profile_id t.now job w) refl
      where
        by_run :
            (r : World O S Float × Result ProcessingOutcome)
            → process_job 𝓕 s t.fresh t.profile_id t.now job w ≡ r
            → (w' : World O S Float) × (handle_job 𝓕 s worker retry_delay type_name message t job w
                ≡ (w', returns tt))
              × (IsFinished t job w w' ⊎ IsFailed t job w w')
        by_run (y, returns o) e = (
          record y { db = finish_in t.now job worker y.db },
          rw (merge-same, e) refl,
          inl (o, y, e, refl),
        )
        by_run (y, raises problem) e = (
          record y {
            db =
                mark_failed t.failed_at job worker
                  (failure_reason 𝓕 s worker retry_delay type_name message problem) retry_delay
                  w.db;
          },
          rw (merge-same, e) (recorded problem y),
          inr (problem, y, e, refl),
        )

    finish_in-jobs :
        (y : World O S Float)
        → w.db.jobs ≡ y.db.jobs
        → Settled job w.db.jobs (finish_in t.now job worker y.db).jobs
    finish_in-jobs y same =
        subst (λ rows. Settled job w.db.jobs (finish rows t.now job.tenant_id job.id worker).1) same
          (finish-Settled w.db.jobs job worker t.now q h)

    Ends-Settled :
        (w' : World O S Float)
        → IsFinished t job w w' ⊎ IsFailed t job w w'
        → Settled job w.db.jobs w'.db.jobs
    unfolding mark_failed
    Ends-Settled w' (inl (o, y, e, same)) =
        subst (λ (x : World O S Float). Settled job w.db.jobs x.db.jobs) (sym same)
          (finish_in-jobs y
            (process_job-jobs 𝓕 s t.fresh t.profile_id t.now w.db.jobs job w y o e refl))
    Ends-Settled w' (inr (e, y, _, same)) =
        subst (λ (x : World O S Float). Settled job w.db.jobs x.db.jobs) (sym same)
          (subst (Settled job w.db.jobs)
            (sym (
              follow_job-jobs job.tenant_id job.document_id
                (fail w.db.jobs t.failed_at job.tenant_id job.id worker
                  (failure_reason 𝓕 s worker retry_delay type_name message e) retry_delay)
                w.db))
            (fail-Settled w.db.jobs job worker
              (failure_reason 𝓕 s worker retry_delay type_name message e) t.failed_at retry_delay q
              h))

    -- The handling of a job that the worker has in hand, in a well-formed queue, always returns. Either the run
    -- returned and its tables are kept, with the job finished; or it raised, the tables are those from
    -- before it with the failed attempt recorded, and what it did to objects and index stays. In both cases the
    -- queue is well formed, no row of the job is in processing, and every other row is as it was.
    pub handle_job-Settled :
        (w' : World O S Float) × (handle_job 𝓕 s worker retry_delay type_name message t job w
          ≡ (w', returns tt))
        × (IsFinished t job w w' ⊎ IsFailed t job w w')
        × Settled job w.db.jobs w'.db.jobs
    handle_job-Settled =
        let (w', returned, ends) = handle_job-Ends in (w', returned, ends, Ends-Settled w' ends)
