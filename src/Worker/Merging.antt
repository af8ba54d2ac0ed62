-- ===== src/Worker/Merging.antt =====
-- `session.merge` in app/worker.py, of a job that is as its row says.
use document_intelligence_mv.Prelude.{
  ◌≡◌, ◌≢◌, refl, sym, ap, ◌∙◌, Bool, true, false, some, [], ◌∷◌, Text, any, update_where,
  Bool-cases, inl, inr, In, Pairs, All-In, ◌==◌, nat_eq, text_eq, option_eq, arith,
}
use document_intelligence_mv.Errors.{returns}
use document_intelligence_mv.Models.{IngestionJob, JobStatus, job_status_eq}
use document_intelligence_mv.Jobs.{Rows, is_live}
use document_intelligence_mv.Jobs.Invariant.{IsQueue, Apart, same_row}
use document_intelligence_mv.Worker.{merge_job, is_other_live}

-- A job in the worker's hands, as its row in the table says.
pub record IsInHand (worker : Text) (rows : Rows) (job : IngestionJob) : Type 0 where
  pub stands : In job rows
  pub running : job.status ≡ JobStatus.processing
  pub holder : job.claimed_by ≡ some worker

In→any :
    (p : IngestionJob → Bool) (rows : Rows) (job : IngestionJob)
    → In job rows
    → p job ≡ true
    → any p rows ≡ true
In→any p [] job i h = elim i [ ]
In→any p (x ∷ xs) job (inl e) h = ground (arith, ap p e)
In→any p (x ∷ xs) job (inr i) h = ground (arith, In→any p xs job i h)

pub any-none :
    (p : IngestionJob → Bool) (rows : Rows)
    → ((x : IngestionJob) → In x rows → p x ≡ false)
    → any p rows ≡ false
any-none p [] h = refl
any-none p (x ∷ xs) h = ground (arith, h x (inl refl), any-none p xs (λ y i. h y (inr i)))

update_where-same :
    (p : IngestionJob → Bool) (f : IngestionJob → IngestionJob) (rows : Rows)
    → ((x : IngestionJob) → In x rows → p x ≡ true → f x ≡ x)
    → update_where p f rows ≡ rows
update_where-same p f [] h = refl
update_where-same p f (x ∷ xs) h = elim (Bool-cases (p x)) [
  | inl t ↦ rw (t, h x (inl refl) t, update_where-same p f xs (λ y i. h y (inr i))) refl
  | inr t ↦ rw (t, update_where-same p f xs (λ y i. h y (inr i))) refl
]

-- Two live rows are of two documents.
pub live_rows_differ :
    (rows : Rows) (a b : IngestionJob)
    → Pairs Apart rows
    → In a rows
    → In b rows
    → is_live a.status ≡ true
    → is_live b.status ≡ true
    → a.document_id ≡ b.document_id
    → a ≡ b
live_rows_differ [] a b u i k l m e = elim i [ ]
live_rows_differ (x ∷ xs) a b (h, u) (inl p) (inl q) l m e = p ∙ sym q
live_rows_differ (x ∷ xs) a b (h, u) (inl p) (inr k) l m e = absurd (
    (All-In (Apart x) xs h k).1 (sym (ap (λ (j : IngestionJob). is_live j.status) p) ∙ l) m
      (sym e ∙ ap (λ (j : IngestionJob). j.document_id) p))
live_rows_differ (x ∷ xs) a b (h, u) (inr i) (inl q) l m e = absurd (
    (All-In (Apart x) xs h i).1 (sym (ap (λ (j : IngestionJob). is_live j.status) q) ∙ m) l
      (e ∙ ap (λ (j : IngestionJob). j.document_id) q))
live_rows_differ (x ∷ xs) a b (h, u) (inr i) (inr k) l m e = live_rows_differ xs a b u i k l m e

no_other_live :
    (rows : Rows) (job x : IngestionJob)
    → IsQueue rows
    → In job rows
    → is_live job.status ≡ true
    → In x rows
    → is_other_live job x ≡ false
no_other_live rows job x q i l k = elim (Bool-cases (is_other_live job x)) [
  | inl t ↦ absurd (
      differs t (
        ap (λ (j : IngestionJob). j.id)
          (live_rows_differ rows x job q.apart k i (ground arith) l (ground arith))))
  | inr f ↦ f
]
  where
    differs : is_other_live job x ≡ true → x.id ≢ job.id
    differs t e = ground arith

-- A job that is as its row says is merged without a change.
pub merge_job-same :
    (rows : Rows) (job : IngestionJob)
    → IsQueue rows
    → In job rows
    → is_live job.status ≡ true
    → merge_job job rows ≡ returns rows
unfolding merge_job
merge_job-same rows job q i l =
    rw
      (
        In→any (λ j. j.id == job.id) rows job i (ground arith),
        any-none (is_other_live job) rows (λ x k. no_other_live rows job x q i l k),
        l,
        update_where-same (λ j. j.id == job.id) (λ j. job) rows
            (λ x k t. same_row rows job x q.apart i k (ground arith)),
      )
      refl
