-- ===== src/Jobs/Invariant/Completion.antt =====
-- The well-formed queue under `finish`, `fail` and `enqueue` of app/services/jobs.py.
use document_intelligence_mv.Prelude.{
  ℕ, ◌≤◌, ◌≡◌, sym, ap, ◌∙◌, true, false, Option, none, some, ◌∷◌, Text, arith, ltb, Bool-cases,
  inl, inr, All-update_where-In, Pairs-update_where, select, update_where, first, any, any-false,
  All-mono, Option-cases, ◌==◌, nat_eq, text_eq, option_eq, ◌||◌, ◌&&◌, if◌then◌else◌,
}
use document_intelligence_mv.Errors.{returns}
use document_intelligence_mv.Models.{IngestionJob, job_status_eq}
use document_intelligence_mv.Jobs.{
  Rows, is_live, enqueue, finish, fail, insert_job, add_job, enqueue_or_existing, clashes, new_job,
  get_live_job, finished_job, failed_attempt, is_held,
}
use document_intelligence_mv.Jobs.Invariant.{
  IsQueue, IsValidJob, new_job-IsValidJob, finished_job-IsValidJob, failed_attempt-IsValidJob,
  Apart, held_is_processing,
}

-- A completion by the holder of a claim keeps the queue well formed.
pub finish-IsQueue :
    (rows : Rows) (now tenant job : ℕ) (worker : Text)
    → IsQueue rows
    → IsQueue (finish rows now tenant job worker).1
unfolding finish
finish-IsQueue rows now tenant job worker q = record {
  valid =
      All-update_where-In IsValidJob IsValidJob (is_held tenant job worker) (finished_job now) rows
        (λ j i h v. finished_job-IsValidJob now j v) (λ j i h v. v) q.valid;
  apart =
      Pairs-update_where Apart (is_held tenant job worker) (finished_job now) rows
        (λ a b i k h. ground arith) q.apart;
}

-- A row after an update, which keeps its keys and does not come to life.
record Fades (a b : IngestionJob) : Type 0 where
  same_id : b.id ≡ a.id
  same_document : b.document_id ≡ a.document_id
  was_live : is_live b.status ≡ true → is_live a.status ≡ true

Apart-Fades : (a b a' b' : IngestionJob) → Fades a a' → Fades b b' → Apart a b → Apart a' b'
Apart-Fades a b a' b' f g h = (
  λ e. h.0 (sym g.same_id ∙ e ∙ f.same_id),
  λ k l e. h.1 (f.was_live k) (g.was_live l) (sym g.same_document ∙ e ∙ f.same_document),
)

Fades-failed :
    (t id : ℕ) (w e : Text) (now d : ℕ) (a : IngestionJob)
    → Fades a (if is_held t id w a then failed_attempt now e d a else a)
Fades-failed t id w e now d a = ground arith

-- A failure reported by the holder of a claim keeps the queue well formed.
pub fail-IsQueue :
    (rows : Rows) (now tenant job : ℕ) (worker error : Text) (delay : ℕ)
    → IsQueue rows
    → IsQueue (fail rows now tenant job worker error delay).1
unfolding fail
fail-IsQueue rows now tenant job worker error delay q =
    elim (Option-cases (first (select (is_held tenant job worker) rows))) [
      | inl e ↦ rw (e, fail) q
      | inr (j, e) ↦ rw (e, fail) after
    ]
  where
    after : IsQueue (update_where (is_held tenant job worker) (failed_attempt now error delay) rows)
    after = record {
      valid =
          All-update_where-In IsValidJob IsValidJob (is_held tenant job worker)
            (failed_attempt now error delay) rows
            (λ j i h v.
              failed_attempt-IsValidJob now error delay j (held_is_processing tenant job worker j h)
                v)
            (λ j i h v. v) q.valid;
      apart =
          Pairs-update_where Apart (is_held tenant job worker) (failed_attempt now error delay) rows
            (λ a b i k.
              Apart-Fades a b _ _ (Fades-failed tenant job worker error now delay a)
                (Fades-failed tenant job worker error now delay b))
            q.apart;
    }

fresh-Apart :
    (new x : IngestionJob)
    → (x.id == new.id
        || (is_live new.status && (is_live x.status && x.document_id == new.document_id)))
      ≡ false
    → Apart new x
fresh-Apart new x h = (λ e. ground arith, λ k l e. ground arith)

insert_job-IsQueue :
    (new : IngestionJob) (rows : Rows) {rows' : Rows}
    → insert_job new rows ≡ returns rows'
    → IsValidJob new
    → IsQueue rows
    → IsQueue rows'
insert_job-IsQueue new rows {rows'} e v q = elim (Bool-cases (any (clashes new) rows)) [
  | inl t ↦ cc (rw t at e)
  | inr f ↦ rw (← same f) (record {
    valid = (v, q.valid);
    apart = (All-mono rows (fresh-Apart new) (any-false (clashes new) rows f), q.apart);
  })
]
  where
    same : any (clashes new) rows ≡ false → new ∷ rows ≡ rows'
    same f = cc (rw f at e)

add_job-IsQueue :
    (new : IngestionJob) (rows : Rows) {job : IngestionJob} {rows' : Rows}
    → add_job new rows ≡ returns (job, rows')
    → (1 ≤ new.max_attempts → IsValidJob new)
    → IsQueue rows
    → IsQueue rows'
unfolding add_job
add_job-IsQueue new rows {rows'} e v q = elim (Bool-cases (ltb new.max_attempts 1)) [
  | inl t ↦ cc (rw t at e)
  | inr t ↦ elim (Bool-cases (any (clashes new) rows)) [
    | inl c ↦ cc (rw (t, c) at e)
    | inr c ↦ insert_job-IsQueue new rows (rw c (ap returns (added t c))) (v (ground arith)) q
  ]
]
  where
    added : ltb new.max_attempts 1 ≡ false → any (clashes new) rows ≡ false → new ∷ rows ≡ rows'
    added t c = cc (rw (t, c) at e)

-- Queueing a document keeps the queue well formed: at most one live job for a document.
pub enqueue-IsQueue :
    (rows : Rows) (id now tenant document n : ℕ) {job : IngestionJob} {rows' : Rows}
    → enqueue rows id now tenant document n ≡ returns (job, rows')
    → IsQueue rows
    → IsQueue rows'
unfolding enqueue
enqueue-IsQueue rows id now tenant document n {job} {rows'} e q =
    by_cases (get_live_job rows tenant document) e
  where
    by_cases :
        (o : Option IngestionJob)
        → enqueue_or_existing rows o (new_job id now tenant document n) ≡ returns (job, rows')
        → IsQueue rows'
    by_cases (some j) f = rw (← existing) q
      where
        existing : rows ≡ rows'
        existing = cc
    by_cases none f =
        add_job-IsQueue (new_job id now tenant document n) rows f
          (new_job-IsValidJob id now tenant document n) q
