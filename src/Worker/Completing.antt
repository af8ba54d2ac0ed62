-- ===== src/Worker/Completing.antt =====
-- `finish` and `fail` of app/services/jobs.py, called for a job that the worker has in hand.
use document_intelligence_mv.Prelude.{
  ℕ, ◌≡◌, ◌≢◌, ◌↔◌, refl, sym, ap, subst, ◌∙◌, true, Text, update_where, Bool-cases, inl, inr, In,
  In-update_where, update_where-others, nat_eq, text_eq, option_eq, arith, if◌then◌else◌,
}
use document_intelligence_mv.Models.{IngestionJob, JobStatus, job_status_eq}
use document_intelligence_mv.Jobs.{Rows, is_held, finish, fail, finished_job, failed_attempt}
use document_intelligence_mv.Jobs.Invariant.{IsQueue, same_row}
use document_intelligence_mv.Jobs.Invariant.Completion.{finish-IsQueue, fail-IsQueue}
use document_intelligence_mv.Jobs.Ownership.{held_alone}
use document_intelligence_mv.Worker.Merging.{IsInHand}

-- An update of the one row that the worker holds.
module _ (rows : Rows) (job : IngestionJob) (worker : Text) (q : IsQueue rows)
    (h : IsInHand worker rows job) (f : IngestionJob → IngestionJob)
    (same_id : (j : IngestionJob) → (f j).id ≡ j.id) where
  abbrev updated : Rows
  updated = update_where (is_held job.tenant_id job.id worker) f rows

  updated-settled :
      (b : IngestionJob)
      → (f job).status ≢ JobStatus.processing
      → In b updated
      → b.id ≡ job.id
      → b.status ≢ JobStatus.processing
  updated-settled b done i e =
      let (a, j, became) = In-update_where (is_held job.tenant_id job.id worker) f rows b i in
      let same =
        same_row rows a job q.apart j h.stands
          (sym (id_kept a) ∙ sym (ap (λ (x : IngestionJob). x.id) became) ∙ e) in
      λ running. done (by_hand a same became running)
    where
      id_kept :
          (a : IngestionJob) → (if is_held job.tenant_id job.id worker a then f a else a).id ≡ a.id
      id_kept a = elim (Bool-cases (is_held job.tenant_id job.id worker a)) [
        | inl t ↦ rw t (same_id a)
        | inr t ↦ rw t refl
      ]

      by_hand :
          (a : IngestionJob)
          → a ≡ job
          → b ≡ (if is_held job.tenant_id job.id worker a then f a else a)
          → b.status ≡ JobStatus.processing
          → (f job).status ≡ JobStatus.processing
      by_hand a same became running =
          let held : is_held job.tenant_id job.id worker job ≡ true =
            ground (arith, h.running, h.holder) in
          let kept : (if is_held job.tenant_id job.id worker job then f job else job) ≡ f job =
            rw held refl in
          ap (λ (x : IngestionJob). x.status)
            (sym (
              became
              ∙ ap (λ x. if is_held job.tenant_id job.id worker x then f x else x) same
              ∙ kept))
          ∙ running

  updated-others : (b : IngestionJob) → b.id ≢ job.id → In b rows ↔ In b updated
  updated-others b other =
      update_where-others (λ (j : IngestionJob). j.id) job.id (is_held job.tenant_id job.id worker)
        f rows b (λ a t. ground arith) same_id other

-- What a worker leaves of the queue once it is through with a job: a queue, in which no row of that job is in
-- processing and every other row is as it was.
pub record Settled (job : IngestionJob) (rows rows' : Rows) : Type 0 where
  pub queue : IsQueue rows'
  pub settled : (b : IngestionJob) → In b rows' → b.id ≡ job.id → b.status ≢ JobStatus.processing
  pub others : (b : IngestionJob) → b.id ≢ job.id → In b rows ↔ In b rows'

pub finish-Settled :
    (rows : Rows) (job : IngestionJob) (worker : Text) (now : ℕ)
    → IsQueue rows
    → IsInHand worker rows job
    → Settled job rows (finish rows now job.tenant_id job.id worker).1
unfolding finish
finish-Settled rows job worker now q h = record {
  queue = unfold finish in finish-IsQueue rows now job.tenant_id job.id worker q;
  settled = λ b. updated-settled rows job worker q h (finished_job now) (λ j. refl) b (λ e. cc e);
  others = updated-others rows job worker q h (finished_job now) (λ j. refl);
}

pub fail-Settled :
    (rows : Rows) (job : IngestionJob) (worker error : Text) (now delay : ℕ)
    → IsQueue rows
    → IsInHand worker rows job
    → Settled job rows (fail rows now job.tenant_id job.id worker error delay).1
fail-Settled rows job worker error now delay q h = record {
  queue = fail-IsQueue rows now job.tenant_id job.id worker error delay q;
  settled = λ b i e.
      updated-settled rows job worker q h (failed_attempt now error delay) same_id b no_more
        (subst (In b) same_rows i) e;
  others = λ b other.
      subst (λ xs. In b rows ↔ In b xs) (sym same_rows)
        (updated-others rows job worker q h (failed_attempt now error delay) same_id b other);
}
  where
    same_id : (j : IngestionJob) → (failed_attempt now error delay j).id ≡ j.id
    same_id j = ground arith

    no_more : (failed_attempt now error delay job).status ≢ JobStatus.processing
    no_more e = ground arith

    same_rows :
        (fail rows now job.tenant_id job.id worker error delay).1
        ≡ update_where (is_held job.tenant_id job.id worker) (failed_attempt now error delay) rows
    same_rows =
        unfold fail in
        rw
          (
            held_alone job.tenant_id job.id worker rows job q h.stands
                (ground (arith, h.running, h.holder)),
            fail,
          )
          refl
