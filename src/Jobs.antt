-- ===== src/Jobs.antt =====
-- app/services/jobs.py: the ingestion queue. The table `ingestion_jobs` is the list of its rows,
-- `now` is the database's clock, and `locked` tells the rows that other transactions hold.
pub mod Invariant
pub mod Claim
pub mod Ownership
pub mod Accounting
pub mod Trace
use document_intelligence_mv.Prelude.{
  ℕ, ◌+◌, Bool, true, false, not, ◌&&◌, ◌||◌, Option, none, some, List, [], ◌∷◌, map, Text, codes,
  ltb, leb, if◌then◌else◌, ◌==◌, nat_eq, text_eq, option_eq, take, select, update_where, first, any,
  contains, sort_by,
}
use document_intelligence_mv.Errors.{
  Result, returns, raises, value_error, integrity_error, raise_if, ◌>>=◌, ◌>>◌,
}
use document_intelligence_mv.Models.{JobStatus, IngestionJob, job_status_eq}

abbrev pub Rows : Type 0
Rows = List IngestionJob

abbrev pub is_live : JobStatus → Bool
is_live JobStatus.queued = true
is_live JobStatus.processing = true
is_live JobStatus.finished = false
is_live JobStatus.failed = false

-- the WHERE clause of `get_live_job`
abbrev pub is_live_job_of : ℕ → ℕ → IngestionJob → Bool
is_live_job_of tenant document j =
    j.tenant_id == tenant && j.document_id == document && is_live j.status

unfoldable pub get_live_job : Rows → ℕ → ℕ → Option IngestionJob
get_live_job rows tenant document = first (select (is_live_job_of tenant document) rows)

unfoldable pub get_latest_job : Rows → ℕ → ℕ → Option IngestionJob
get_latest_job rows tenant document = first (
    sort_by (λ a b. leb b.updated_at a.updated_at)
      (select (λ j. j.tenant_id == tenant && j.document_id == document) rows))

unfoldable pub get_job : Rows → ℕ → ℕ → Option IngestionJob
get_job rows tenant job = first (select (λ j. j.id == job && j.tenant_id == tenant) rows)

-- A new row clashes with one of its id, or, if it is live, with a live one of its document.
abbrev pub clashes : IngestionJob → IngestionJob → Bool
clashes new j =
    j.id == new.id || (is_live new.status && (is_live j.status && j.document_id == new.document_id))

-- `session.add` and `flush`: the primary key and the unique index on live jobs are checked.
abbrev pub insert_job : IngestionJob → Rows → Result Rows
insert_job new rows =
    if any (clashes new) rows then raises integrity_error else returns (new ∷ rows)

-- the row that `enqueue` adds, with the defaults of the columns
abbrev pub new_job : ℕ → ℕ → ℕ → ℕ → ℕ → IngestionJob
new_job id now tenant document max_attempts = record {
  id = id;
  tenant_id = tenant;
  document_id = document;
  status = JobStatus.queued;
  attempts = 0;
  max_attempts = max_attempts;
  last_error = none;
  available_at = now;
  claimed_at = none;
  claimed_by = none;
  created_at = now;
  updated_at = now;
}

-- The CHECK constraint refuses `max_attempts < 1`.
unfoldable pub add_job : IngestionJob → Rows → Result (IngestionJob × Rows)
add_job new rows = do
  raise_if (ltb new.max_attempts 1) integrity_error
  rows' ← insert_job new rows
  returns (new, rows')

abbrev pub enqueue_or_existing :
    Rows → Option IngestionJob → IngestionJob → Result (IngestionJob × Rows)
enqueue_or_existing rows (some existing) new = returns (existing, rows)
enqueue_or_existing rows none new = add_job new rows

-- `id` is the fresh UUID.
unfoldable pub enqueue : Rows → ℕ → ℕ → ℕ → ℕ → ℕ → Result (IngestionJob × Rows)
unfolding add_job get_live_job
enqueue rows id now tenant document max_attempts =
    enqueue_or_existing rows (get_live_job rows tenant document)
      (new_job id now tenant document max_attempts)

-- the WHERE clause of the claiming SELECT, with SKIP LOCKED
abbrev pub is_due : (ℕ → Bool) → ℕ → IngestionJob → Bool
is_due locked now j = j.status == JobStatus.queued && leb j.available_at now && not (locked j.id)

-- ORDER BY available_at, created_at, id
abbrev pub comes_first : IngestionJob → IngestionJob → Bool
comes_first a b =
    ltb a.available_at b.available_at
    || (a.available_at == b.available_at
        && (ltb a.created_at b.created_at || (a.created_at == b.created_at && leb a.id b.id)))

-- the CTE `due_jobs`
unfoldable pub due_ids : (ℕ → Bool) → ℕ → ℕ → Rows → List ℕ
due_ids locked now limit rows =
    map (λ j. j.id) (take limit (sort_by comes_first (select (is_due locked now) rows)))

-- the values that the claiming UPDATE sets
abbrev pub claimed : Text → ℕ → IngestionJob → IngestionJob
claimed worker now j = record j {
  status = JobStatus.processing;
  claimed_at = some now;
  claimed_by = some worker;
  attempts = j.attempts + 1;
  updated_at = now;
}

unfoldable pub claim : (ℕ → Bool) → Rows → ℕ → Text → ℕ → Result (List IngestionJob × Rows)
unfolding due_ids
claim locked rows now worker limit =
    if ltb limit 1
    then raises value_error
    else (let ids = due_ids locked now limit rows in
        let rows' = update_where (λ j. contains ids j.id) (claimed worker now) rows in
        returns (sort_by comes_first (select (λ j. contains ids j.id) rows'), rows'))

-- the WHERE clause of `finish` and `fail`
abbrev pub is_held : ℕ → ℕ → Text → IngestionJob → Bool
is_held tenant job worker j =
    j.id == job
    && j.tenant_id == tenant
    && j.status == JobStatus.processing
    && j.claimed_by == some worker

abbrev pub finished_job : ℕ → IngestionJob → IngestionJob
finished_job now j = record j {
  status = JobStatus.finished;
  last_error = none;
  claimed_at = none;
  claimed_by = none;
  updated_at = now;
}

unfoldable pub finish : Rows → ℕ → ℕ → ℕ → Text → Option IngestionJob × Rows
finish rows now tenant job worker =
    let rows' = update_where (is_held tenant job worker) (finished_job now) rows in
    (first (map (finished_job now) (select (is_held tenant job worker) rows)), rows')

-- the assignments of `fail`; `updated_at` has `onupdate=func.now()`
abbrev pub failed_attempt : ℕ → Text → ℕ → IngestionJob → IngestionJob
failed_attempt now error retry_delay j =
    let kept = record j {
      last_error = some (take 2000 error);
      claimed_at = none;
      claimed_by = none;
      updated_at = now;
    } in
    if leb j.max_attempts j.attempts
    then record kept { status = JobStatus.failed }
    else record kept { status = JobStatus.queued; available_at = now + retry_delay }

-- The primary key makes the held row one row.
unfoldable pub fail : Rows → ℕ → ℕ → ℕ → Text → Text → ℕ → Option IngestionJob × Rows
fail rows now tenant job worker error retry_delay =
    elim (first (select (is_held tenant job worker) rows)) [
      | none ↦ (none, rows)
      | some j ↦ (
        some (failed_attempt now error retry_delay j),
        update_where (is_held tenant job worker) (failed_attempt now error retry_delay) rows,
      )
    ]
