-- ===== src/Jobs/Ownership.antt =====
-- `finish` and `fail` of app/services/jobs.py: who may complete a job.
use document_intelligence_mv.Prelude.{
  ℕ, ◌≡◌, refl, Bool, true, false, none, some, [], ◌∷◌, Text, arith, inl, inr, Option-cases, select,
  update_where, first, any, nat_eq, text_eq, option_eq, if◌then◌else◌, update_where-none,
  first-select, In-update_where_intro, In, All-In, subst, ◌+◌, ◌<◌, ◌↔◌, take, All, ◌≢◌,
}
use document_intelligence_mv.Models.{JobStatus, IngestionJob, job_status_eq}
use document_intelligence_mv.Jobs.Invariant.{IsQueue, IsValidJob, same_row}
use document_intelligence_mv.Jobs.{Rows, finish, fail, is_held, finished_job, failed_attempt}

-- The job `job` of the tenant is not in processing, or another worker's: its claim was taken over, or its row is
-- not there.
abbrev pub IsForeign : Rows → ℕ → ℕ → Text → Type 0
IsForeign rows tenant job worker =
    All
      (λ j.
        j.id ≡ job
        → j.tenant_id ≡ tenant
        → j.status ≡ JobStatus.processing
        → j.claimed_by ≢ some worker)
      rows

-- No row is chosen by the condition of `finish` and `fail`.
abbrev NotHeld : Rows → ℕ → ℕ → Text → Type 0
NotHeld rows tenant job worker = any (is_held tenant job worker) rows ≡ false

select-any : (p : IngestionJob → Bool) (rows : Rows) → any p rows ≡ false → select p rows ≡ []
select-any p [] h = refl
select-any p (x ∷ xs) h = ground (arith, select-any p xs)

complete-NotHeld :
    (rows : Rows) (now tenant job : ℕ) (worker error : Text) (delay : ℕ)
    → NotHeld rows tenant job worker
    → (finish rows now tenant job worker ≡ (none, rows))
      × (fail rows now tenant job worker error delay ≡ (none, rows))
unfolding finish fail
complete-NotHeld rows now tenant job worker error delay h = (
  rw
      (
        select-any (is_held tenant job worker) rows h,
        update_where-none (is_held tenant job worker) (finished_job now) rows h,
      )
      refl,
  rw (select-any (is_held tenant job worker) rows h, fail) refl,
)

IsForeign→NotHeld :
    (rows : Rows) (tenant job : ℕ) (worker : Text)
    → IsForeign rows tenant job worker
    → NotHeld rows tenant job worker
IsForeign→NotHeld [] tenant job worker h = refl
IsForeign→NotHeld (x ∷ xs) tenant job worker (f, fs) =
    ground (arith, f, IsForeign→NotHeld xs tenant job worker fs)

-- A worker whose job is not in processing, is held by another worker or is gone gets nothing from `finish` or
-- `fail`, and no row changes.
pub complete_foreign :
    (rows : Rows) (now tenant job : ℕ) (worker error : Text) (delay : ℕ)
    → IsForeign rows tenant job worker
    → (finish rows now tenant job worker ≡ (none, rows))
      × (fail rows now tenant job worker error delay ≡ (none, rows))
complete_foreign rows now tenant job worker error delay h =
    complete-NotHeld rows now tenant job worker error delay
      (IsForeign→NotHeld rows tenant job worker h)

finish-NotHeld :
    (rows : Rows) (now tenant job : ℕ) (worker : Text)
    → NotHeld (update_where (is_held tenant job worker) (finished_job now) rows) tenant job worker
finish-NotHeld [] now tenant job worker = refl
finish-NotHeld (x ∷ xs) now tenant job worker =
    ground (arith, finish-NotHeld xs now tenant job worker)

fail-NotHeld :
    (rows : Rows) (now tenant job : ℕ) (worker error : Text) (delay : ℕ)
    → NotHeld
        (update_where (is_held tenant job worker) (failed_attempt now error delay) rows)
        tenant
        job
        worker
fail-NotHeld [] now tenant job worker error delay = refl
fail-NotHeld (x ∷ xs) now tenant job worker error delay =
    ground (arith, fail-NotHeld xs now tenant job worker error delay)

none_held :
    (rows : Rows) (tenant job : ℕ) (worker : Text)
    → first (select (is_held tenant job worker) rows) ≡ none
    → NotHeld rows tenant job worker
none_held [] tenant job worker h = refl
none_held (x ∷ xs) tenant job worker h = ground (arith, none_held xs tenant job worker)

-- A job that its worker has finished or failed is no more the worker's: a second completion gets
-- nothing and changes nothing.
pub complete_once :
    (rows : Rows) (now later tenant job : ℕ) (worker error : Text) (delay : ℕ)
    → let done = (finish rows now tenant job worker).1 in
      let given_up = (fail rows now tenant job worker error delay).1 in
      (finish done later tenant job worker ≡ (none, done))
      × (fail done later tenant job worker error delay ≡ (none, done))
      × (finish given_up later tenant job worker ≡ (none, given_up))
      × (fail given_up later tenant job worker error delay ≡ (none, given_up))
complete_once rows now later tenant job worker error delay =
    let (a, b) =
      complete-NotHeld (finish rows now tenant job worker).1 later tenant job worker error delay
        (unfold finish in finish-NotHeld rows now tenant job worker) in
    let (c, d) =
      complete-NotHeld (fail rows now tenant job worker error delay).1 later tenant job worker error
        delay given in
    (a, b, c, d)
  where
    given : NotHeld (fail rows now tenant job worker error delay).1 tenant job worker
    given =
        unfold fail in
        (elim (Option-cases (first (select (is_held tenant job worker) rows))) [
          | inl e ↦ rw (e, fail) (none_held rows tenant job worker e)
          | inr (j, e) ↦ rw (e, fail) (fail-NotHeld rows now tenant job worker error delay)
        ])

pub held_alone :
    (tenant job : ℕ) (worker : Text) (rows : Rows) (j : IngestionJob)
    → IsQueue rows
    → In j rows
    → is_held tenant job worker j ≡ true
    → first (select (is_held tenant job worker) rows) ≡ some j
held_alone tenant job worker rows j q i h =
    first-select (is_held tenant job worker) rows j i h
      (λ k m t. same_row rows k j q.apart m i (ground arith))

-- On a well-formed queue, what the holder of a claim gets for `fail`: the job is failed for good exactly when its attempts are
-- used up, otherwise queued again and due after the delay; it is free, it keeps the first 2000 characters of the
-- diagnosis, and its tenant, document, creation time, attempts and their maximum stay.
pub fail_holder :
    (rows : Rows) (now tenant job : ℕ) (worker error : Text) (delay : ℕ) (j : IngestionJob)
    → IsQueue rows
    → In j rows
    → is_held tenant job worker j ≡ true
    → (r : IngestionJob) × ((fail rows now tenant job worker error delay).0 ≡ some r)
      × In r (fail rows now tenant job worker error delay).1
      × (r.id ≡ job)
      × (r.tenant_id ≡ tenant)
      × (r.document_id ≡ j.document_id)
      × (r.attempts ≡ j.attempts)
      × (r.max_attempts ≡ j.max_attempts)
      × (r.created_at ≡ j.created_at)
      × (r.claimed_by ≡ none)
      × (r.last_error ≡ some (take 2000 error))
      × ((r.status ≡ JobStatus.failed) ↔ (j.attempts ≡ j.max_attempts))
      × ((r.status ≡ JobStatus.queued) ↔ (j.attempts < j.max_attempts))
      × (r.status ≡ JobStatus.queued → r.available_at ≡ now + delay)
fail_holder rows now tenant job worker error delay j q i h =
    let found = held_alone tenant job worker rows j q i h in
    (
      failed_attempt now error delay j,
      unfold fail in rw (found, fail) refl,
      stands found,
      ground arith,
      ground arith,
      ground arith,
      ground arith,
      ground arith,
      ground arith,
      ground arith,
      ground arith,
      ground (arith, All-In IsValidJob rows q.valid i),
      ground (arith, All-In IsValidJob rows q.valid i),
      ground arith,
    )
  where
    stands :
        first (select (is_held tenant job worker) rows) ≡ some j
        → In (failed_attempt now error delay j) (fail rows now tenant job worker error delay).1
    stands found =
        unfold fail in
        rw (found, fail)
          (subst
            (λ r.
              In r (update_where (is_held tenant job worker) (failed_attempt now error delay) rows))
            (chosen h)
            (In-update_where_intro (is_held tenant job worker) (failed_attempt now error delay) rows
              j i))
      where
        chosen :
            is_held tenant job worker j ≡ true
            → (if is_held tenant job worker j then failed_attempt now error delay j else j)
              ≡ failed_attempt now error delay j
        chosen t = rw t
