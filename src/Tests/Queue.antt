-- ===== src/Tests/Queue.antt =====
-- The queue of app/services/jobs.py on small tables.
use document_intelligence_mv.Prelude.{
  ℕ, ◌≡◌, ◌≢◌, ◌≤◌, ◌↔◌, ◌<◌, ◌+◌, refl, sym, ap, Bool, true, false, none, some, List, [], ◌∷◌,
  Text, codes, arith, In, inl, length, Sorted, nat_eq, text_eq, option_eq, sort_by, count_key, All,
  take,
}
use document_intelligence_mv.Errors.{returns}
use document_intelligence_mv.Models.{JobStatus, IngestionJob, job_status_eq}
use document_intelligence_mv.Jobs.{
  Rows, new_job, claimed, enqueue, claim, finish, fail, comes_first, is_held,
}
use document_intelligence_mv.Jobs.Invariant.{IsQueue}
use document_intelligence_mv.Jobs.Claim.{WasDue, claim_lem, claim-claim}
use document_intelligence_mv.Jobs.Ownership.{IsForeign, complete_foreign, fail_holder}
use document_intelligence_mv.Jobs.Accounting.{key}
use document_intelligence_mv.Jobs.Trace.{
  Call, enqueuing, claiming, finishing, failing, run, claims_bounded, run-IsQueue,
}

abbrev worker : Text
worker = codes "w1"

abbrev other : Text
other = codes "w2"

abbrev unlocked : ℕ → Bool
unlocked i = false

abbrev waiting : IngestionJob
waiting = new_job 1 0 7 70 3

abbrev table : Rows
table = waiting ∷ []

abbrev held : IngestionJob
held = claimed worker 5 waiting

claim_runs : claim unlocked table 5 worker 1 ≡ returns (held ∷ [], held ∷ [])
unfolding claim nat_eq job_status_eq sort_by
claim_runs = refl

abbrev second : IngestionJob
second = new_job 2 0 7 71 3

abbrev second_held : IngestionJob
second_held = claimed other 6 second

abbrev two_jobs : Rows
two_jobs = waiting ∷ second ∷ []

two_jobs-IsQueue : IsQueue two_jobs
two_jobs-IsQueue = record {
  valid = (ground arith, (ground arith, tt));
  apart = (((ground arith, tt)), ((tt, tt)));
}

first_claim_runs : claim unlocked two_jobs 5 worker 1 ≡ returns (held ∷ [], held ∷ second ∷ [])
unfolding claim nat_eq job_status_eq sort_by
first_claim_runs = refl

table-IsQueue : IsQueue table
table-IsQueue = record { valid = (ground arith, tt); apart = (tt, tt) }

held-IsQueue : IsQueue (held ∷ [])
held-IsQueue = record { valid = (ground arith, tt); apart = (tt, tt) }

claim_lem_example :
    (1 ≤ 1)
    × Sorted comes_first (held ∷ [])
    × ((c : IngestionJob) → In c (held ∷ []) → WasDue unlocked table 5 worker c)
claim_lem_example = claim_lem unlocked table 5 worker 1 claim_runs table-IsQueue

claim_after_runs :
    claim unlocked (held ∷ second ∷ []) 6 other 4
    ≡ returns (second_held ∷ [], held ∷ second_held ∷ [])
unfolding claim nat_eq job_status_eq sort_by
claim_after_runs = refl

claim-claim_example : All (λ c. All (λ d. c.id ≢ d.id) (second_held ∷ [])) (held ∷ [])
claim-claim_example =
    claim-claim unlocked unlocked two_jobs 5 6 worker other 1 4 first_claim_runs claim_after_runs
      two_jobs-IsQueue

foreign : IsForeign (held ∷ []) 7 1 other
foreign = (λ i t p c. differs (sym (some-eq c)), tt)
  where
    some-eq : some worker ≡ some other → worker ≡ other
    some-eq p = cc

    last : Text → ℕ
    last [] = 0
    last (a ∷ []) = 0
    last (a ∷ b ∷ s) = b

    differs : other ≢ worker
    differs e = omega (arith, ap last e)

complete_foreign_example :
    (finish (held ∷ []) 9 7 1 other ≡ (none, held ∷ []))
    × (fail (held ∷ []) 9 7 1 other (codes "late") 60 ≡ (none, held ∷ []))
complete_foreign_example = complete_foreign (held ∷ []) 9 7 1 other (codes "late") 60 foreign

held_here : is_held 7 1 worker held ≡ true
unfolding nat_eq job_status_eq text_eq option_eq
held_here = refl

fail_holder_example :
    (r : IngestionJob) × ((fail (held ∷ []) 9 7 1 worker (codes "bad") 60).0 ≡ some r)
    × In r (fail (held ∷ []) 9 7 1 worker (codes "bad") 60).1
    × (r.id ≡ 1)
    × (r.tenant_id ≡ 7)
    × (r.document_id ≡ 70)
    × (r.attempts ≡ held.attempts)
    × (r.max_attempts ≡ 3)
    × (r.created_at ≡ held.created_at)
    × (r.claimed_by ≡ none)
    × (r.last_error ≡ some (take 2000 (codes "bad")))
    × ((r.status ≡ JobStatus.failed) ↔ (held.attempts ≡ held.max_attempts))
    × ((r.status ≡ JobStatus.queued) ↔ (held.attempts < held.max_attempts))
    × (r.status ≡ JobStatus.queued → r.available_at ≡ 9 + 60)
fail_holder_example =
    fail_holder (held ∷ []) 9 7 1 worker (codes "bad") 60 held held-IsQueue (inl refl) held_here

-- One job: two attempts fail, the third claim finishes it.
abbrev life : List Call
life =
    enqueuing 1 0 7 70 3
    ∷ claiming unlocked 1 worker 4
    ∷ failing 2 7 1 worker (codes "bad") 60
    ∷ claiming unlocked 9 other 4
    ∷ claiming unlocked 62 other 4
    ∷ finishing 63 7 1 other
    ∷ []

life_runs : length (run [] [] life).1 ≡ 2
unfolding run enqueue claim finish fail nat_eq job_status_eq text_eq option_eq sort_by
life_runs = refl

claims_bounded_example :
    ((j : IngestionJob)
      → In j (run [] [] life).0
      → count_key key j.id (run [] [] life).1 ≤ j.max_attempts)
    × ((c : IngestionJob)
        → In c (run [] [] life).1
        → (j : IngestionJob) × In j (run [] [] life).0 × (j.id ≡ c.id))
claims_bounded_example = claims_bounded life

run-IsQueue_example : IsQueue (run table [] life).0
run-IsQueue_example = run-IsQueue table [] life table-IsQueue
