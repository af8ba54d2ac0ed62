-- ===== src/Jobs/Accounting.antt =====
-- The account of the jobs that `claim` of app/services/jobs.py has handed out.
use document_intelligence_mv.Prelude.{
  ℕ, ◌≤◌, ◌≡◌, ◌≢◌, refl, sym, ap, ◌∙◌, Bool, false, some, none, Option, List, ◌∷◌, ◌++◌, Text,
  arith, Bool-cases, inl, inr, ◌⊎◌, ltb, All, In, Pairs, All-In, All-of-In, All-mono, contains,
  count_key, count_key-append, count_key-sort_by, count_key-select_le, count_key-absent,
  count_key-Pairs, In-update_where, In-append, All-select_test, In-update_where_intro, any,
  any-false, update_where, select, subst, nat_eq, if◌then◌else◌,
}
use document_intelligence_mv.Errors.{returns}
use document_intelligence_mv.Models.{IngestionJob}
use document_intelligence_mv.Jobs.{
  Rows, enqueue, claim, due_ids, claimed, add_job, enqueue_or_existing, new_job, clashes,
  get_live_job, comes_first,
}
use document_intelligence_mv.Jobs.Invariant.{IsQueue, Apart, claim-IsQueue}
use document_intelligence_mv.Jobs.Claim.{keyed, claim-In, claim-eq-ok}

abbrev pub key : IngestionJob → ℕ
key j = j.id

-- Each hand-over of a job is paid for by one of its attempts.
pub record Accounted (rows : Rows) (handed : List IngestionJob) : Type 0 where
  pub paid : (j : IngestionJob) → In j rows → count_key key j.id handed ≤ j.attempts
  pub known : (c : IngestionJob) → In c handed → (j : IngestionJob) × In j rows × (j.id ≡ c.id)

-- What the account asks of one row.
abbrev pub Paid : List IngestionJob → IngestionJob → Type 0
Paid handed j = count_key key j.id handed ≤ j.attempts

pub Accounted-update :
    (p : IngestionJob → Bool) (f : IngestionJob → IngestionJob) (rows : Rows)
    (handed : List IngestionJob)
    → ((j : IngestionJob) → ((f j).id ≡ j.id) × ((f j).attempts ≡ j.attempts))
    → Accounted rows handed
    → Accounted (update_where p f rows) handed
Accounted-update p f rows handed keeps a = record {
  paid = λ j i.
      let (b, k, e) = In-update_where p f rows j i in
      subst (Paid handed) (sym e) (kept b (a.paid b k));
  known = λ c i.
      let (b, k, e) = a.known c i in
      (if p b then f b else b, In-update_where_intro p f rows b k, ground (arith, keeps b));
}
  where
    kept : (b : IngestionJob) → Paid handed b → Paid handed (if p b then f b else b)
    kept b h = elim (Bool-cases (p b)) [
      | inl t ↦ rw t (rw ((keeps b).0, (keeps b).1) h)
      | inr t ↦ rw t h
    ]

pub enqueue_rows :
    (rows : Rows) (id now tenant document n : ℕ) {job : IngestionJob} {rows' : Rows}
    → enqueue rows id now tenant document n ≡ returns (job, rows')
    → (rows ≡ rows')
      ⊎ ((new_job id now tenant document n ∷ rows ≡ rows') × All (λ x. x.id ≢ id) rows)
unfolding enqueue
enqueue_rows rows id now tenant document n {job} {rows'} e =
    by_cases (get_live_job rows tenant document) e
  where
    new : IngestionJob
    new = new_job id now tenant document n

    by_cases :
        (o : Option IngestionJob)
        → enqueue_or_existing rows o new ≡ returns (job, rows')
        → (rows ≡ rows') ⊎ ((new ∷ rows ≡ rows') × All (λ x. x.id ≢ id) rows)
    by_cases (some j) f = inl (cc)
    by_cases none f = elim (Bool-cases (ltb n 1)) [
      | inl t ↦ cc (rw (t, add_job) at f)
      | inr t ↦ elim (Bool-cases (any (clashes new) rows)) [
        | inl c ↦ cc (rw (t, c, add_job) at f)
        | inr c ↦ inr (
          cc (rw (t, c, add_job) at f),
          All-mono rows (λ x h e. ground arith) (any-false (clashes new) rows c),
        )
      ]
    ]

pub enqueue-Accounted :
    (rows : Rows) (handed : List IngestionJob) (new : IngestionJob)
    → All (λ x. x.id ≢ new.id) rows
    → Accounted rows handed
    → Accounted (new ∷ rows) handed
enqueue-Accounted rows handed new fresh a = record {
  paid = λ j i. paid_after j i;
  known = λ c i. let (b, k, e) = a.known c i in (b, inr k, e);
}
  where
    never : count_key key new.id handed ≡ 0
    never = count_key-absent key new.id handed (
        All-of-In (λ x. x.id ≢ new.id) handed
          (λ c i e.
            let (b, k, s) = a.known c i in All-In (λ x. x.id ≢ new.id) rows fresh k (s ∙ e)))

    paid_after : (j : IngestionJob) → In j (new ∷ rows) → count_key key j.id handed ≤ j.attempts
    paid_after j (inl e) = subst (Paid handed) (sym e) (omega (arith, never))
    paid_after j (inr i) = a.paid j i

pub claim-Accounted :
    (locked : ℕ → Bool) (rows : Rows) (now : ℕ) (worker : Text) (limit : ℕ)
    (handed : List IngestionJob) {cs : List IngestionJob} {rows' : Rows}
    → claim locked rows now worker limit ≡ returns (cs, rows')
    → IsQueue rows
    → Accounted rows handed
    → Accounted rows' (cs ++ handed)
claim-Accounted locked rows now worker limit handed {cs} {rows'} e q a = record {
  paid = λ j i.
      let (b, k, f) =
        In-update_where hit (claimed worker now) rows j
          (subst (In j) (sym (claim-eq-ok locked rows now worker limit e).1) i) in
      subst (Paid (cs ++ handed)) (sym f) (kept b (a.paid b k));
  known = λ c i. elim (In-append c cs handed i) [
    | inl k ↦ (c, claim-In locked rows now worker limit e c k, refl)
    | inr k ↦ known_before c (a.known c k)
  ];
}
  where
    hit : IngestionJob → Bool
    hit j = contains (due_ids locked now limit rows) j.id

    after : Rows
    after = update_where hit (claimed worker now) rows

    moved : after ≡ rows'
    moved = (claim-eq-ok locked rows now worker limit e).1

    counted : (k : ℕ) → count_key key k cs ≡ count_key key k (select hit after)
    counted k =
        ap (count_key key k) (sym (claim-eq-ok locked rows now worker limit e).0)
        ∙ count_key-sort_by key k comes_first (select hit after)

    once : (k : ℕ) → count_key key k cs ≤ 1
    once k = omega (
      arith,
      counted k,
      count_key-select_le key k hit after,
      count_key-Pairs key k after (
          keyed after (
            subst (Pairs Apart) (sym moved)
              (claim-IsQueue locked rows now worker limit e q).apart)),
    )

    missed : (b : IngestionJob) → hit b ≡ false → count_key key b.id cs ≡ 0
    missed b t =
        counted b.id
        ∙ count_key-absent key b.id (select hit after) (
            All-select_test (λ x. x.id ≢ b.id) hit after
              (λ x h s. cc (ap (contains (due_ids locked now limit rows)) s)))

    kept :
        (b : IngestionJob)
        → Paid handed b
        → Paid (cs ++ handed) (if hit b then claimed worker now b else b)
    kept b h = elim (Bool-cases (hit b)) [
      | inl t ↦ rw t (omega (arith, once b.id, count_key-append key b.id cs handed))
      | inr t ↦ rw t (omega (arith, missed b t, count_key-append key b.id cs handed))
    ]

    known_before :
        (c : IngestionJob)
        → ((j : IngestionJob) × In j rows × (j.id ≡ c.id))
        → (j : IngestionJob) × In j rows' × (j.id ≡ c.id)
    known_before c (b, k, f) = (
      if hit b then claimed worker now b else b,
      subst (In (if hit b then claimed worker now b else b)) moved
          (In-update_where_intro hit (claimed worker now) rows b k),
      ground arith,
    )
