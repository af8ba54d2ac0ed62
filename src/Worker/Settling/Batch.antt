-- ===== src/Worker/Settling/Batch.antt =====
-- `process_one_batch` of app/worker.py, from the claim to the count that it returns.
use document_intelligence_mv.Prelude.{
  ℕ, suc, ◌+◌, ◌≤◌, ◌≡◌, ◌≢◌, ◌↔◌, refl, sym, ap, subst, ◌∙◌, Bool, true, false, List, [], ◌∷◌,
  Text, length, ltb, All, In, Pairs, All-mono, All-In, All-of-In, Pairs-select, Pairs-sort_by,
  contains, nat_eq, arith, if◌then◌else◌,
}
use document_intelligence_mv.Errors.{Error, raises, returns, value_error}
use document_intelligence_mv.Models.{IngestionJob, JobStatus}
use document_intelligence_mv.Floats.{Floats}
use document_intelligence_mv.Jobs.{Rows, claim, due_ids, comes_first}
use document_intelligence_mv.Jobs.Invariant.{IsQueue, Apart, claim-IsQueue}
use document_intelligence_mv.Jobs.Claim.{claim_lem, claim-In, claim-eq-ok, keyed}
use document_intelligence_mv.Actions.{◌>>=◌}
use document_intelligence_mv.Processing.{Services}
use document_intelligence_mv.World.{World}
use document_intelligence_mv.Worker.{Turn, handle_jobs, process_one_batch}
use document_intelligence_mv.Worker.Merging.{IsInHand}
use document_intelligence_mv.Worker.Settling.{handle_job-Settled}

-- No row of the job is in processing.
abbrev pub IsLetGo : Rows → IngestionJob → Type 0
IsLetGo rows job = All (λ (b : IngestionJob). b.id ≡ job.id → b.status ≢ JobStatus.processing) rows

-- The jobs of a claim are told apart by their ids.
claim-Pairs :
    (locked : ℕ → Bool) (rows : Rows) (now : ℕ) (worker : Text) (limit : ℕ)
    (jobs : List IngestionJob) (rows' : Rows)
    → claim locked rows now worker limit ≡ returns (jobs, rows')
    → IsQueue rows
    → Pairs (λ a b. b.id ≢ a.id) jobs
claim-Pairs locked rows now worker limit jobs rows' e q =
    let (sorted, same) = claim-eq-ok locked rows now worker limit e in
    subst (Pairs (λ a b. b.id ≢ a.id)) sorted (
      Pairs-sort_by comes_first (λ a b. b.id ≢ a.id) _ (λ a b n k. n (sym k))
        (Pairs-select (λ a b. b.id ≢ a.id) (λ j. contains (due_ids locked now limit rows) j.id) _
          (keyed _ (
            subst (Pairs Apart) (sym same)
              ((claim-IsQueue locked rows now worker limit e q).apart)))))

module _ (𝓕 : Floats) {O S : Type 0} (s : Services O S 𝓕.Float) (worker : Text) (retry_delay : ℕ)
    (type_name message : Error → Text) where
  open 𝓕 use {Float}

  -- What the loop leaves of the queue.
  record Through (jobs : List IngestionJob) (rows rows' : Rows) : Type 0 where
    queue : IsQueue rows'
    let_go : All (IsLetGo rows') jobs
    others :
        (b : IngestionJob) → All (λ (j : IngestionJob). b.id ≢ j.id) jobs → In b rows ↔ In b rows'

  handle_jobs-Through :
      (turn : ℕ → Turn) (handled : ℕ) (jobs : List IngestionJob) (w : World O S Float)
      → IsQueue w.db.jobs
      → All (IsInHand worker w.db.jobs) jobs
      → Pairs (λ a b. b.id ≢ a.id) jobs
      → (w' : World O S Float) × (handle_jobs 𝓕 s worker retry_delay type_name message turn handled
            jobs w
          ≡ (w', returns (handled + length jobs)))
        × Through jobs w.db.jobs w'.db.jobs
  unfolding handle_jobs ◌>>=◌
  handle_jobs-Through turn handled [] w q h u = (
    w,
    ap (λ n. (w, returns n)) (omega arith),
    record { queue = q; let_go = tt; others = λ b a. ((λ i. i), (λ i. i)) },
  )
  handle_jobs-Through turn handled (job ∷ jobs) w q (h, hs) (u, us) =
      let (w1, returned, _, settled) =
        handle_job-Settled 𝓕 s worker retry_delay type_name message (turn handled) job w q h in
      let (w2, rest, through) =
        handle_jobs-Through turn (suc handled) jobs w1 settled.queue
          (All-of-In (IsInHand worker w1.db.jobs) jobs (λ j i.
            let hand = All-In (IsInHand worker w.db.jobs) jobs hs i in
            record {
              stands = (settled.others j (All-In (λ b. b.id ≢ job.id) jobs u i)).0 hand.stands;
              running = hand.running;
              holder = hand.holder;
            }))
          us in
      (
        w2,
        rw returned (rest ∙ ap (λ n. (w2, returns n)) (omega arith)),
        record {
          queue = through.queue;
          let_go = (
            All-of-In (λ (b : IngestionJob). b.id ≡ job.id → b.status ≢ JobStatus.processing)
                w2.db.jobs
                (λ b i e.
                  settled.settled b
                    ((through.others b (All-mono jobs (λ j n k. n (sym k ∙ e)) u)).1 i) e),
            through.let_go,
          );
          others = λ b (n, ns). (
            (λ i. (through.others b ns).0 ((settled.others b n).0 i)),
            (λ i. (settled.others b n).1 ((through.others b ns).1 i)),
          );
        },
      )

  claim-returns :
      (locked : ℕ → Bool) (rows : Rows) (now limit : ℕ)
      → 1 ≤ limit
      → (jobs : List IngestionJob) × (rows' : Rows) × (claim locked rows now worker limit
          ≡ returns (jobs, rows'))
  unfolding claim
  claim-returns locked rows now limit h = by_limit (ltb limit 1) _ (ground arith)
    where
      by_limit :
          (b : Bool) (r : List IngestionJob × Rows)
          → b ≡ false
          → (jobs : List IngestionJob) × (rows' : Rows) × ((if b
                then raises value_error
                else returns r)
              ≡ returns (jobs, rows'))
      by_limit true r e = cc e
      by_limit false r e = (r.0, r.1, refl)

  -- A batch on a well-formed queue, of at least one place, returns, whatever becomes of the single runs: it has
  -- claimed at most `batch_size` jobs, it returns their number, none of them is left in processing, and the
  -- queue is well formed again.
  pub process_one_batch-IsLetGo :
      (locked : ℕ → Bool) (now batch_size : ℕ) (turn : ℕ → Turn) (w : World O S Float)
      → IsQueue w.db.jobs
      → 1 ≤ batch_size
      → (jobs : List IngestionJob) × (rows : Rows) × (w' : World O S Float) × (claim locked
            w.db.jobs now worker batch_size
          ≡ returns (jobs, rows))
        × (process_one_batch 𝓕 s worker retry_delay type_name message locked now batch_size turn w
            ≡ (w', returns (length jobs)))
        × (length jobs ≤ batch_size)
        × All (IsLetGo w'.db.jobs) jobs
        × IsQueue w'.db.jobs
  unfolding process_one_batch ◌>>=◌
  process_one_batch-IsLetGo locked now batch_size turn w q enough =
      let (jobs, rows, e) = claim-returns locked w.db.jobs now batch_size enough in
      let (bounded, _, due) = claim_lem locked w.db.jobs now worker batch_size e q in
      let (w', returned, through) =
        handle_jobs-Through turn 0 jobs (record w { db = record w.db { jobs = rows } })
          (claim-IsQueue locked w.db.jobs now worker batch_size e q)
          (All-of-In (IsInHand worker rows) jobs (λ j i. record {
            stands = claim-In locked w.db.jobs now worker batch_size e j i;
            running = (due j i).running;
            holder = (due j i).holder;
          }))
          (claim-Pairs locked w.db.jobs now worker batch_size jobs rows e q) in
      (
        jobs,
        rows,
        w',
        e,
        rw e (returned ∙ ap (λ n. (w', returns n)) (omega arith)),
        bounded,
        through.let_go,
        through.queue,
      )
