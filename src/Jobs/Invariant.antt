-- ===== src/Jobs/Invariant.antt =====
-- The well-formed queue of app/services/jobs.py, and `claim` on it.
pub mod Completion
use document_intelligence_mv.Prelude.{
  ℕ, ◌≤◌, ◌<◌, ◌≡◌, ◌≢◌, refl, sym, ap, ◌∙◌, Bool, true, false, Option, none, some, List, [], ◌∷◌,
  map, Text, arith, ltb, Bool-cases, inl, inr, All, In, Pairs, All-In, All-update_where-In,
  Pairs-update_where, contains→In, In-map, In-select, In-sort_by, In-take, take, sort_by, select,
  update_where, first, any, any-false, All-mono, Option-cases, contains, ◌==◌, nat_eq, text_eq,
  option_eq, ◌||◌, ◌&&◌, if◌then◌else◌,
}
use document_intelligence_mv.Errors.{returns}
use document_intelligence_mv.Models.{JobStatus, IngestionJob, job_status_eq}
use document_intelligence_mv.Jobs.{
  Rows, is_live, is_due, comes_first, enqueue, claim, due_ids, finish, fail, insert_job, add_job,
  enqueue_or_existing, clashes, claimed, new_job, get_live_job, finished_job, failed_attempt,
  is_held,
}

-- One row: attempts never pass the bound, a queued job has one left, and a claim is recorded exactly
-- while the job is being processed.
pub record IsValidJob (j : IngestionJob) : Type 0 where
  pub positive : 1 ≤ j.max_attempts
  pub bounded : j.attempts ≤ j.max_attempts
  pub queued_left : j.status ≡ JobStatus.queued → j.attempts < j.max_attempts
  pub processing_counted : j.status ≡ JobStatus.processing → 1 ≤ j.attempts
  pub processing_held : j.status ≡ JobStatus.processing → (w : Text) × (j.claimed_by ≡ some w)
  pub idle_free : j.status ≢ JobStatus.processing → j.claimed_by ≡ none
  pub failed_spent : j.status ≡ JobStatus.failed → j.attempts ≡ j.max_attempts

abbrev pub IsValid : Rows → Type 0
IsValid = All IsValidJob

pub new_job-IsValidJob :
    (id now tenant document n : ℕ) → 1 ≤ n → IsValidJob (new_job id now tenant document n)
new_job-IsValidJob id now tenant document n h = ground arith

pub finished_job-IsValidJob :
    (now : ℕ) (j : IngestionJob) → IsValidJob j → IsValidJob (finished_job now j)
finished_job-IsValidJob now j v = ground arith

pub failed_attempt-IsValidJob :
    (now : ℕ) (e : Text) (d : ℕ) (j : IngestionJob)
    → j.status ≡ JobStatus.processing
    → IsValidJob j
    → IsValidJob (failed_attempt now e d j)
failed_attempt-IsValidJob now e d j p v = ground arith

claimed-IsValidJob :
    (w : Text) (now : ℕ) (j : IngestionJob)
    → j.status ≡ JobStatus.queued
    → IsValidJob j
    → IsValidJob (claimed w now j)
claimed-IsValidJob w now j q v = record {
  positive = v.positive;
  bounded = omega (arith, v.queued_left q);
  queued_left = λ e. cc;
  processing_counted = λ e. omega arith;
  processing_held = λ e. (w, refl);
  idle_free = λ n. absurd (n refl);
  failed_spent = λ e. cc;
}

-- Two rows differ in their primary key, and at most one of two for one document is live.
abbrev pub Apart : IngestionJob → IngestionJob → Type 0
Apart a b =
    (b.id ≢ a.id)
    × (is_live a.status ≡ true → is_live b.status ≡ true → b.document_id ≢ a.document_id)

pub record IsQueue (rows : Rows) : Type 0 where
  pub valid : All IsValidJob rows
  pub apart : Pairs Apart rows

-- With unique keys a row is known by its key.
pub same_row :
    (rows : Rows) (a b : IngestionJob)
    → Pairs Apart rows
    → In a rows
    → In b rows
    → a.id ≡ b.id
    → a ≡ b
same_row [] a b u i k e = elim i [ ]
same_row (x ∷ xs) a b (h, u) (inl p) (inl q) e = p ∙ sym q
same_row (x ∷ xs) a b (h, u) (inl p) (inr k) e =
    absurd ((All-In (Apart x) xs h k).0 (sym e ∙ ap (λ (j : IngestionJob). j.id) p))
same_row (x ∷ xs) a b (h, u) (inr i) (inl q) e =
    absurd ((All-In (Apart x) xs h i).0 (e ∙ ap (λ (j : IngestionJob). j.id) q))
same_row (x ∷ xs) a b (h, u) (inr i) (inr k) e = same_row xs a b u i k e

-- Each id of the CTE is that of a row which is due.
pub due_ids_lem :
    (locked : ℕ → Bool) (now limit : ℕ) (rows : Rows) (i : ℕ)
    → contains (due_ids locked now limit rows) i ≡ true
    → (j : IngestionJob) × In j rows × (is_due locked now j ≡ true) × (j.id ≡ i)
unfolding due_ids
due_ids_lem locked now limit rows i h =
    let found =
      contains→In i
        (map (λ (j : IngestionJob). j.id)
          (take limit (sort_by comes_first (select (is_due locked now) rows))))
        h in
    let (j, k, e) =
      In-map (λ (j : IngestionJob). j.id) i
        (take limit (sort_by comes_first (select (is_due locked now) rows))) found in
    let (m, d) = In-select (is_due locked now) rows j (
      In-sort_by comes_first j (select (is_due locked now) rows)
        (In-take j limit (sort_by comes_first (select (is_due locked now) rows)) k)) in
    (j, m, d, e)

-- The rows that a claim changes are those that were due.
pub claimed_was_due :
    (locked : ℕ → Bool) (now limit : ℕ) (rows : Rows)
    → Pairs Apart rows
    → (j : IngestionJob) → In j rows
    → contains (due_ids locked now limit rows) j.id ≡ true
    → is_due locked now j ≡ true
claimed_was_due locked now limit rows u j i h =
    let (r, k, d, e) = due_ids_lem locked now limit rows j.id h in
    rw (same_row rows j r u i k (sym e)) d

pub due_is_queued :
    (locked : ℕ → Bool) (now : ℕ) (j : IngestionJob)
    → is_due locked now j ≡ true
    → j.status ≡ JobStatus.queued
due_is_queued locked now j h = ground arith

pub held_is_processing :
    (t id : ℕ) (w : Text) (j : IngestionJob)
    → is_held t id w j ≡ true
    → j.status ≡ JobStatus.processing
held_is_processing t id w j h = ground arith

pub Apart-claimed :
    (rows : Rows) (locked : ℕ → Bool) (now limit : ℕ) (w : Text) (a b : IngestionJob)
    → Pairs Apart rows
    → In a rows
    → In b rows
    → Apart a b
    → let ids = due_ids locked now limit rows in
      Apart
        (if contains ids a.id then claimed w now a else a)
        (if contains ids b.id then claimed w now b else b)
Apart-claimed rows locked now limit w a b u i j h = ground (
  arith,
  claimed_was_due locked now limit rows u a i,
  claimed_was_due locked now limit rows u b j,
)

-- A claim keeps the queue well formed.
pub claim-IsQueue :
    (locked : ℕ → Bool) (rows : Rows) (now : ℕ) (worker : Text) (limit : ℕ) {cs : List IngestionJob}
    {rows' : Rows}
    → claim locked rows now worker limit ≡ returns (cs, rows')
    → IsQueue rows
    → IsQueue rows'
unfolding claim
claim-IsQueue locked rows now worker limit {cs} {rows'} e q = elim (Bool-cases (ltb limit 1)) [
  | inl t ↦ cc (rw t at e)
  | inr f ↦ rw (← result f) after
]
  where
    ids : List ℕ
    ids = due_ids locked now limit rows

    after : IsQueue (
        update_where (λ j. contains (due_ids locked now limit rows) j.id) (claimed worker now) rows)
    after = record {
      valid =
          All-update_where-In IsValidJob IsValidJob
            (λ j. contains (due_ids locked now limit rows) j.id) (claimed worker now) rows
            (λ j i h v.
              claimed-IsValidJob worker now j
                (due_is_queued locked now j (claimed_was_due locked now limit rows q.apart j i h))
                v)
            (λ j i h v. v) q.valid;
      apart =
          Pairs-update_where Apart (λ j. contains (due_ids locked now limit rows) j.id)
            (claimed worker now) rows
            (λ a b i k h. Apart-claimed rows locked now limit worker a b q.apart i k h) q.apart;
    }

    result :
        ltb limit 1 ≡ false
        → update_where
            (λ j. contains (due_ids locked now limit rows) j.id)
            (claimed worker now)
            rows
          ≡ rows'
    result f = cc (rw f at e)
