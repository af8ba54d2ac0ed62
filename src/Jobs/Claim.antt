-- ===== src/Jobs/Claim.antt =====
-- `claim` of app/services/jobs.py: what a claim hands out.
use document_intelligence_mv.Prelude.{
  ℕ, ◌+◌, ◌≤◌, ◌≡◌, ◌≢◌, some, sym, ap, ◌∙◌, Bool, true, false, List, Text, arith, ltb, length,
  length-take-le, length-select_keys, In-update_where, Pairs, Bool-cases, inl, inr, All, In,
  All-of-In, In-select, In-sort_by, take, sort_by, select, update_where, contains, nat_eq,
  if◌then◌else◌, All-mono, length-map, subst, Sorted, sort_by-Sorted, length-sort_by, [], ◌∷◌,
}
use document_intelligence_mv.Errors.{returns}
use document_intelligence_mv.Models.{IngestionJob, JobStatus}
use document_intelligence_mv.Jobs.{Rows, is_due, comes_first, claim, due_ids, claimed}
use document_intelligence_mv.Jobs.Invariant.{
  IsQueue, Apart, claimed_was_due, same_row, claim-IsQueue, due_is_queued,
}

comes_first_total : (a b : IngestionJob) → comes_first a b ≡ false → comes_first b a ≡ true
comes_first_total a b h = ground arith

comes_first_trans :
    (a b c : IngestionJob)
    → comes_first a b ≡ true
    → comes_first b c ≡ true
    → comes_first a c ≡ true
comes_first_trans a b c h k = ground arith

-- The rows and the jobs of a claim that is not refused.
pub claim-eq-ok :
    (locked : ℕ → Bool) (rows : Rows) (now : ℕ) (worker : Text) (limit : ℕ) {cs : List IngestionJob}
    {rows' : Rows}
    → claim locked rows now worker limit ≡ returns (cs, rows')
    → let after =
        update_where
          (λ j. contains (due_ids locked now limit rows) j.id)
          (claimed worker now)
          rows in
      (sort_by comes_first (select (λ j. contains (due_ids locked now limit rows) j.id) after) ≡ cs)
      × (after ≡ rows')
unfolding claim
claim-eq-ok locked rows now worker limit e = elim (Bool-cases (ltb limit 1)) [
  | inl t ↦ cc (rw t at e)
  | inr f ↦ (cc (rw f at e), cc (rw f at e))
]

-- A claimed job, and the due row that it was before.
pub record WasDue (locked : ℕ → Bool) (rows : Rows) (now : ℕ) (worker : Text) (c : IngestionJob)
    : Type 0 where
  pub before : IngestionJob
  pub stood : In before rows
  pub queued : before.status ≡ JobStatus.queued
  pub on_time : before.available_at ≤ now
  pub free : locked before.id ≡ false
  pub running : c.status ≡ JobStatus.processing
  pub holder : c.claimed_by ≡ some worker
  pub counted : c.attempts ≡ before.attempts + 1
  pub became : c ≡ claimed worker now before

pub claim-WasDue :
    (locked : ℕ → Bool) (rows : Rows) (now : ℕ) (worker : Text) (limit : ℕ) {cs : List IngestionJob}
    {rows' : Rows}
    → claim locked rows now worker limit ≡ returns (cs, rows')
    → IsQueue rows
    → (c : IngestionJob) → In c cs
    → WasDue locked rows now worker c
claim-WasDue locked rows now worker limit {cs} e q c i =
    let after =
      update_where (λ j. contains (due_ids locked now limit rows) j.id) (claimed worker now) rows in
    let hits = select (λ (j : IngestionJob). contains (due_ids locked now limit rows) j.id) after in
    let sorted = subst (In c) (sym (claim-eq-ok locked rows now worker limit e).0) i in
    let (m, k) =
      In-select (λ j. contains (due_ids locked now limit rows) j.id) after c
        (In-sort_by comes_first c hits sorted) in
    let (j, n, became) =
      In-update_where (λ j. contains (due_ids locked now limit rows) j.id) (claimed worker now) rows
        c m in
    changed j n became k
  where
    from_due :
        (j : IngestionJob)
        → In j rows
        → c ≡ claimed worker now j
        → is_due locked now j ≡ true
        → WasDue locked rows now worker c
    from_due j n became due = record {
      before = j;
      stood = n;
      queued = due_is_queued locked now j due;
      on_time = ground arith;
      free = ground arith;
      running = ap (λ (x : IngestionJob). x.status) became;
      holder = ap (λ (x : IngestionJob). x.claimed_by) became;
      counted = ap (λ (x : IngestionJob). x.attempts) became;
      became = became;
    }

    changed :
        (j : IngestionJob)
        → In j rows
        → c ≡ (if contains (due_ids locked now limit rows) j.id then claimed worker now j else j)
        → contains (due_ids locked now limit rows) c.id ≡ true
        → WasDue locked rows now worker c
    changed j n b k = elim (Bool-cases (contains (due_ids locked now limit rows) j.id)) [
      | inl t ↦ from_due j n (rw t at b) (claimed_was_due locked now limit rows q.apart j n t)
      | inr f ↦
          let b' : c ≡ j = (rw f at b) in
          cc (ap (λ (r : IngestionJob). contains (due_ids locked now limit rows) r.id) b')
    ]

due_ids-length :
    (locked : ℕ → Bool) (now limit : ℕ) (rows : Rows)
    → length (due_ids locked now limit rows) ≤ limit
unfolding due_ids
due_ids-length locked now limit rows =
    rw (length-map (λ j. j.id) (take limit (sort_by comes_first (select (is_due locked now) rows))))
      (length-take-le limit (sort_by comes_first (select (is_due locked now) rows)))

pub keyed : (xs : Rows) → Pairs Apart xs → Pairs (λ a b. b.id ≢ a.id) xs
keyed [] u = tt
keyed (x ∷ xs) (h, u) = (All-mono xs (λ a k. k.0) h, keyed xs u)

-- A claim hands out at most `limit` jobs, in the order of their due times; each was queued, due and
-- free of other transactions' locks, and now is processing in the worker's name with one attempt more.
pub claim_lem :
    (locked : ℕ → Bool) (rows : Rows) (now : ℕ) (worker : Text) (limit : ℕ) {cs : List IngestionJob}
    {rows' : Rows}
    → claim locked rows now worker limit ≡ returns (cs, rows')
    → IsQueue rows
    → (length cs ≤ limit)
      × Sorted comes_first cs
      × ((c : IngestionJob) → In c cs → WasDue locked rows now worker c)
claim_lem locked rows now worker limit {cs} {rows'} e q = (
  bounded,
  subst (Sorted comes_first) same
      (sort_by-Sorted comes_first comes_first_total comes_first_trans hits),
  claim-WasDue locked rows now worker limit e q,
)
  where
    hits : Rows
    hits =
        select (λ j. contains (due_ids locked now limit rows) j.id)
          (update_where (λ j. contains (due_ids locked now limit rows) j.id) (claimed worker now)
            rows)

    same : sort_by comes_first hits ≡ cs
    same = (claim-eq-ok locked rows now worker limit e).0

    queue : IsQueue rows'
    queue = claim-IsQueue locked rows now worker limit e q

    bounded : length cs ≤ limit
    bounded = rw (← same) (
        omega (
          arith,
          length-sort_by comes_first hits,
          due_ids-length locked now limit rows,
          length-select_keys (λ j. j.id)
              (update_where (λ j. contains (due_ids locked now limit rows) j.id)
                (claimed worker now) rows)
              (due_ids locked now limit rows)
              (keyed _ (
                subst (Pairs Apart) (sym (claim-eq-ok locked rows now worker limit e).1)
                  queue.apart)),
        ))

pub claim-In :
    (locked : ℕ → Bool) (rows : Rows) (now : ℕ) (worker : Text) (limit : ℕ) {cs : List IngestionJob}
    {rows' : Rows}
    → claim locked rows now worker limit ≡ returns (cs, rows')
    → (c : IngestionJob) → In c cs
    → In c rows'
claim-In locked rows now worker limit {cs} e c i =
    let after =
      update_where (λ j. contains (due_ids locked now limit rows) j.id) (claimed worker now) rows in
    let hits = select (λ (j : IngestionJob). contains (due_ids locked now limit rows) j.id) after in
    let sorted = subst (In c) (sym (claim-eq-ok locked rows now worker limit e).0) i in
    subst (In c) (claim-eq-ok locked rows now worker limit e).1
      (In-select (λ j. contains (due_ids locked now limit rows) j.id) after c
        (In-sort_by comes_first c hits sorted)).0

committed_apart :
    (locked skipped : ℕ → Bool) (rows : Rows) (now later : ℕ) (v w : Text) (m n : ℕ)
    {cs ds : List IngestionJob} {rows' rows'' : Rows}
    → claim locked rows now v m ≡ returns (cs, rows')
    → claim skipped rows' later w n ≡ returns (ds, rows'')
    → IsQueue rows
    → (c d : IngestionJob) → In c cs
    → In d ds
    → c.id ≢ d.id
committed_apart locked skipped rows now later v w m n {cs} {ds} {rows'} e f q c d i j same =
    let q' = claim-IsQueue locked rows now v m e q in
    let r = claim-WasDue skipped rows' later w n f q' d j in
    let p = claim-WasDue locked rows now v m e q c i in
    let k = claim-In locked rows now v m e c i in
    let eq =
      same_row rows' c r.before q'.apart k r.stood
        (same ∙ ap (λ (x : IngestionJob). x.id) r.became) in
    ground (
      arith,
      ap (λ (x : IngestionJob). x.status) eq,
      ap (λ (x : IngestionJob). x.status) p.became,
      r.queued,
    )

-- On a well-formed queue, a claim on the table that another claim has left hands out none of that claim's jobs,
-- whatever rows are locked at either time.
pub claim-claim :
    (locked skipped : ℕ → Bool) (rows : Rows) (now later : ℕ) (v w : Text) (m n : ℕ)
    {cs ds : List IngestionJob} {rows' rows'' : Rows}
    → claim locked rows now v m ≡ returns (cs, rows')
    → claim skipped rows' later w n ≡ returns (ds, rows'')
    → IsQueue rows
    → All (λ c. All (λ d. c.id ≢ d.id) ds) cs
claim-claim locked skipped rows now later v w m n {cs} {ds} e f q =
    All-of-In (λ c. All (λ d. c.id ≢ d.id) ds) cs
      (λ c i.
        All-of-In (λ d. c.id ≢ d.id) ds
          (λ d j. committed_apart locked skipped rows now later v w m n e f q c d i j))
