-- ===== src/Jobs/Trace.antt =====
-- The queue of app/services/jobs.py over any sequence of calls, by any workers at any times.
use document_intelligence_mv.Prelude.{
  ℕ, ◌≤◌, ◌≡◌, refl, Bool, List, [], ◌∷◌, ◌++◌, Text, arith, inl, inr, In, All-In, count_key,
  Option-cases, first, select, nat_eq,
}
use document_intelligence_mv.Errors.{Result, returns, raises}
use document_intelligence_mv.Models.{IngestionJob}
use document_intelligence_mv.Jobs.{
  Rows, enqueue, claim, finish, fail, new_job, finished_job, failed_attempt, is_held,
}
use document_intelligence_mv.Jobs.Invariant.{IsQueue, IsValidJob, claim-IsQueue}
use document_intelligence_mv.Jobs.Invariant.Completion.{
  finish-IsQueue, fail-IsQueue, enqueue-IsQueue,
}
use document_intelligence_mv.Jobs.Accounting.{
  enqueue_rows, key, Accounted, Accounted-update, enqueue-Accounted, claim-Accounted,
}

-- A call on the queue, with the clock's reading and what the caller passes.
pub data Call : Type 0 where
  enqueuing : (id now tenant document max_attempts : ℕ) → Call
  claiming : (locked : ℕ → Bool) (now : ℕ) (worker : Text) (limit : ℕ) → Call
  finishing : (now tenant job : ℕ) (worker : Text) → Call
  failing : (now tenant job : ℕ) (worker error : Text) (delay : ℕ) → Call

-- A call that raises leaves the table as it was: its transaction is rolled back.
abbrev after_enqueue : Rows → Result (IngestionJob × Rows) → Rows × List IngestionJob
after_enqueue rows (returns (job, rows')) = (rows', [])
after_enqueue rows (raises e) = (rows, [])

abbrev after_claim : Rows → Result (List IngestionJob × Rows) → Rows × List IngestionJob
after_claim rows (returns (cs, rows')) = (rows', cs)
after_claim rows (raises e) = (rows, [])

-- The table after a call, and the jobs that the call handed to a worker.
step : Rows → Call → Rows × List IngestionJob
step rows (enqueuing id now tenant document n) =
    after_enqueue rows (enqueue rows id now tenant document n)
step rows (claiming locked now worker limit) = after_claim rows (claim locked rows now worker limit)
step rows (finishing now tenant job worker) = ((finish rows now tenant job worker).1, [])
step rows (failing now tenant job worker error delay) =
    ((fail rows now tenant job worker error delay).1, [])

-- The table after all calls, and every job that was handed out, once for each time.
unfoldable pub run : Rows → List IngestionJob → List Call → Rows × List IngestionJob
unfolding step
run rows handed [] = (rows, handed)
run rows handed (c ∷ cs) = let (rows', more) = step rows c in run rows' (more ++ handed) cs

step-IsQueue : (rows : Rows) (c : Call) → IsQueue rows → IsQueue (step rows c).0
unfolding step
step-IsQueue rows (enqueuing id now tenant document n) q =
    after (enqueue rows id now tenant document n) refl
  where
    after :
        (r : Result (IngestionJob × Rows))
        → enqueue rows id now tenant document n ≡ r
        → IsQueue (after_enqueue rows r).0
    after (returns (job, rows')) e = enqueue-IsQueue rows id now tenant document n e q
    after (raises x) e = q
step-IsQueue rows (claiming locked now worker limit) q =
    after (claim locked rows now worker limit) refl
  where
    after :
        (r : Result (List IngestionJob × Rows))
        → claim locked rows now worker limit ≡ r
        → IsQueue (after_claim rows r).0
    after (returns (cs, rows')) e = claim-IsQueue locked rows now worker limit e q
    after (raises x) e = q
step-IsQueue rows (finishing now tenant job worker) q = finish-IsQueue rows now tenant job worker q
step-IsQueue rows (failing now tenant job worker error delay) q =
    fail-IsQueue rows now tenant job worker error delay q

-- Whatever the calls, the queue stays well formed.
pub run-IsQueue :
    (rows : Rows) (handed : List IngestionJob) (cs : List Call)
    → IsQueue rows
    → IsQueue (run rows handed cs).0
unfolding run
run-IsQueue rows handed [] q = q
run-IsQueue rows handed (c ∷ cs) q =
    run-IsQueue (step rows c).0 ((step rows c).1 ++ handed) cs (step-IsQueue rows c q)

step-Accounted :
    (rows : Rows) (handed : List IngestionJob) (c : Call)
    → IsQueue rows
    → Accounted rows handed
    → Accounted (step rows c).0 ((step rows c).1 ++ handed)
unfolding step
step-Accounted rows handed (enqueuing id now tenant document n) q a =
    after (enqueue rows id now tenant document n) refl
  where
    after :
        (r : Result (IngestionJob × Rows))
        → enqueue rows id now tenant document n ≡ r
        → Accounted (after_enqueue rows r).0 ((after_enqueue rows r).1 ++ handed)
    after (returns (job, rows')) e = elim (enqueue_rows rows id now tenant document n e) [
      | inl same ↦ rw (← same) a
      | inr (added, fresh) ↦
          rw (← added) (enqueue-Accounted rows handed (new_job id now tenant document n) fresh a)
    ]
    after (raises x) e = a
step-Accounted rows handed (claiming locked now worker limit) q a =
    after (claim locked rows now worker limit) refl
  where
    after :
        (r : Result (List IngestionJob × Rows))
        → claim locked rows now worker limit ≡ r
        → Accounted (after_claim rows r).0 ((after_claim rows r).1 ++ handed)
    after (returns (cs, rows')) e = claim-Accounted locked rows now worker limit handed e q a
    after (raises x) e = a
step-Accounted rows handed (finishing now tenant job worker) q a =
    unfold finish in
    Accounted-update (is_held tenant job worker) (finished_job now) rows handed (λ j. (refl, refl))
      a
step-Accounted rows handed (failing now tenant job worker error delay) q a =
    elim (Option-cases (first (select (is_held tenant job worker) rows))) [
      | inl e ↦ unfold fail in rw (e, fail) a
      | inr (j, e) ↦
          unfold fail in
          rw (e, fail)
            (Accounted-update (is_held tenant job worker) (failed_attempt now error delay) rows
              handed (λ j. (ground arith, ground arith)) a)
    ]

run-Accounted :
    (rows : Rows) (handed : List IngestionJob) (cs : List Call)
    → IsQueue rows
    → Accounted rows handed
    → Accounted (run rows handed cs).0 (run rows handed cs).1
unfolding run
run-Accounted rows handed [] q a = a
run-Accounted rows handed (c ∷ cs) q a =
    run-Accounted (step rows c).0 ((step rows c).1 ++ handed) cs (step-IsQueue rows c q)
      (step-Accounted rows handed c q a)

-- From an empty queue, whatever the calls, no job is handed to a worker more often than its
-- `max_attempts`, and each job that was handed out stands in the table.
pub claims_bounded :
    (cs : List Call)
    → ((j : IngestionJob)
        → In j (run [] [] cs).0
        → count_key key j.id (run [] [] cs).1 ≤ j.max_attempts)
      × ((c : IngestionJob)
          → In c (run [] [] cs).1
          → (j : IngestionJob) × In j (run [] [] cs).0 × (j.id ≡ c.id))
claims_bounded cs =
    let q = run-IsQueue [] [] cs (record { valid = tt; apart = tt }) in
    let a =
      run-Accounted [] [] cs (record { valid = tt; apart = tt })
        (record { paid = λ j i. absurd i; known = λ c i. absurd i }) in
    (
      λ j i. omega (arith, a.paid j i, (All-In IsValidJob (run [] [] cs).0 q.valid i).bounded),
      a.known,
    )
