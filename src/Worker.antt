-- ===== src/Worker.antt =====
-- app/worker.py: a batch of claimed jobs, each in a transaction of its own. What the database's clock says, and
-- the ids of new rows, are drawn from outside for each job; so are the name
-- and the text of an exception.
pub mod Merging
pub mod Completing
pub mod Settling
use document_intelligence_mv.Prelude.{
  ℕ, suc, Bool, true, false, not, ◌&&◌, List, [], ◌∷◌, ◌++◌, Text, codes, select, any, update_where,
  ◌==◌, nat_eq, if◌then◌else◌,
}
use document_intelligence_mv.Errors.{
  Error, Result, raises, returns, parsing_error, package_rejected, object_not_found, indexing_error,
  profiling_error, vector_store_error, reindex_error, reindex_not_found, no_stored_chunks,
  file_too_large, empty_file, unsupported_file_type, value_error, integrity_error, unexpected,
}
use document_intelligence_mv.Models.{IngestionJob}
use document_intelligence_mv.Floats.{Floats}
use document_intelligence_mv.Database.{Db}
use document_intelligence_mv.Jobs.{Rows, is_live, insert_job, claim, finish}
use document_intelligence_mv.Actions.{Action, pure, attempt, ◌>>=◌, ◌>>◌}
use document_intelligence_mv.Processing.{Services, process_job, mark_failed}
use document_intelligence_mv.World.{World, execute, execute_checked, in_transaction}

-- RETRYABLE_ERRORS
abbrev pub is_retryable : Error → Bool
is_retryable parsing_error = true
is_retryable package_rejected = true
is_retryable object_not_found = true
is_retryable indexing_error = true
is_retryable profiling_error = true
is_retryable vector_store_error = true
is_retryable e = false

abbrev pub is_other_live : IngestionJob → IngestionJob → Bool
is_other_live job j = not (j.id == job.id) && (is_live j.status && j.document_id == job.document_id)

-- `session.merge`: every column of the row with the job's id is set to the worker's copy, or the row is added
-- again if it is gone. The unique index on live jobs is checked.
unfoldable pub merge_job : IngestionJob → Rows → Result Rows
merge_job job rows =
    if any (λ j. j.id == job.id) rows
    then (if is_live job.status && any (is_other_live job) rows
        then raises integrity_error
        else returns (update_where (λ j. j.id == job.id) (λ j. job) rows))
    else insert_job job rows

abbrev pub with_jobs : {F : Type 0} → Db F → Result Rows → Result (Db F)
with_jobs db (raises e) = raises e
with_jobs db (returns rows) = returns (record db { jobs = rows })

abbrev pub merge : {F : Type 0} → IngestionJob → Db F → Result (Db F)
merge job db = with_jobs db (merge_job job db.jobs)

-- What the transactions of one job draw from outside.
pub record Turn : Type 0 where
  pub fresh : ℕ → ℕ
  pub profile_id : ℕ
  pub now : ℕ
  pub failed_at : ℕ

abbrev pub finish_in : {F : Type 0} → ℕ → IngestionJob → Text → Db F → Db F
finish_in now job worker db = record db {
  jobs = (finish db.jobs now job.tenant_id job.id worker).1;
}

module _ (𝓕 : Floats) {O S : Type 0} (s : Services O S 𝓕.Float) (worker : Text) (retry_delay : ℕ)
    (type_name message : Error → Text) where
  open 𝓕 use {Float}

  -- The diagnostic of a failure; one that is not expected is named by its type alone.
  unfoldable pub failure_reason : Error → Text
  failure_reason e =
      if is_retryable e
      then type_name e ++ (codes ": " ++ message e)
      else codes "unexpected " ++ type_name e

  abbrev pub work_on : Turn → IngestionJob → Action (World O S Float) (Unit {0})
  work_on t job = do
    execute_checked (merge job)
    process_job 𝓕 s t.fresh t.profile_id t.now job
    execute (finish_in t.now job worker)

  abbrev pub record_failure : Turn → IngestionJob → Error → Action (World O S Float) (Unit {0})
  record_failure t job e = do
    execute_checked (merge job)
    execute (mark_failed t.failed_at job worker (failure_reason e) retry_delay)

  -- The body of the loop: the failure is recorded in a second transaction.
  unfoldable pub handle_job : Turn → IngestionJob → Action (World O S Float) (Unit {0})
  unfolding mark_failed failure_reason
  handle_job t job =
      attempt (in_transaction (work_on t job)) (λ e. in_transaction (record_failure t job e))

  -- The loop, from the count of the jobs that were handled before.
  unfoldable pub handle_jobs : (ℕ → Turn) → ℕ → List IngestionJob → Action (World O S Float) ℕ
  unfolding handle_job
  handle_jobs turn handled [] = pure handled
  handle_jobs turn handled (job ∷ jobs) =
      handle_job (turn handled) job >> handle_jobs turn (suc handled) jobs

  abbrev claimed_in :
      World O S Float
      → Result (List IngestionJob × Rows)
      → World O S Float × Result (List IngestionJob)
  claimed_in w (raises e) = (w, raises e)
  claimed_in w (returns (jobs, rows)) =
      (record w { db = record w.db { jobs = rows } }, returns jobs)

  -- The claim is a transaction of its own.
  abbrev pub claim_batch : (ℕ → Bool) → ℕ → ℕ → Action (World O S Float) (List IngestionJob)
  claim_batch locked now batch_size w = claimed_in w (claim locked w.db.jobs now worker batch_size)

  unfoldable pub process_one_batch : (ℕ → Bool) → ℕ → ℕ → (ℕ → Turn) → Action (World O S Float) ℕ
  unfolding handle_jobs
  process_one_batch locked now batch_size turn =
      claim_batch locked now batch_size >>= handle_jobs turn 0
