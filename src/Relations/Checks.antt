-- ===== src/Relations/Checks.antt =====
-- `detect_relations` of app/services/relations.py against the CHECK constraints of `document_relations` in
-- app/models.py.
use document_intelligence_mv.Prelude.{
  ℕ, ◌≡◌, ◌≢◌, ◌⊎◌, refl, sym, ◌∙◌, subst, inl, inr, true, false, Bool-cases, Option, none, some,
  List, [], ◌∷◌, All, All-In, In, Pairs, ◌==◌, nat_eq, arith,
}
use document_intelligence_mv.Errors.{Result, returns, raises, integrity_error, ◌>>=◌}
use document_intelligence_mv.Floats.{Floats, IsOrdered}
use document_intelligence_mv.Relations.{
  Edge, Settings, Candidate, Decision, DocumentRelation, edge_of, insert_or_update, upsert_relation,
  is_in_range, is_allowed, write_edges, classify, detect_relations,
}
use document_intelligence_mv.Relations.Rules.{InUnit, classify-InUnit}
use document_intelligence_mv.Relations.Edges.{detected, find, verdict, detect_relations-found}

module _ (𝓕 : Floats) where
  in_range-InUnit : (score : Option 𝓕.Float) → is_in_range 𝓕 score ≡ true → InUnit 𝓕 score
  in_range-InUnit none h = tt
  in_range-InUnit (some x) h = (ground arith, ground arith)

  InUnit-in_range : (score : Option 𝓕.Float) → InUnit 𝓕 score → is_in_range 𝓕 score ≡ true
  InUnit-in_range none u = refl
  InUnit-in_range (some x) (u, v) = ground arith

  allowed_lem :
      (e : Edge) (score : Option 𝓕.Float)
      → e.source_document_id ≢ e.target_document_id
      → InUnit 𝓕 score
      → is_allowed 𝓕 e score ≡ true
  allowed_lem e score n u =
      let r : is_in_range 𝓕 score ≡ true = InUnit-in_range score u in
      elim (Bool-cases (e.source_document_id == e.target_document_id)) [
        | inl t ↦ absurd (ground arith)
        | inr f ↦ rw (f, r) refl
      ]

  -- Two documents and a score that the table refuses.
  abbrev Unfit : ℕ → ℕ → Option 𝓕.Float → Type 0
  Unfit a b score = (a ≡ b) ⊎ (InUnit 𝓕 score → ⊥)

  fit_cases : (a b : ℕ) (score : Option 𝓕.Float) → ((a ≢ b) × InUnit 𝓕 score) ⊎ Unfit a b score
  fit_cases a b score = elim (Bool-cases (a == b)) [
    | inl t ↦ inr (inl (ground arith))
    | inr f ↦ elim (Bool-cases (is_in_range 𝓕 score)) [
      | inl t ↦ inl ((λ e. ground arith), in_range-InUnit score t)
      | inr g ↦ inr (inr (λ u. cc (g, InUnit-in_range score u)))
    ]
  ]

  refused_lem :
      (e : Edge) (score : Option 𝓕.Float)
      → Unfit e.source_document_id e.target_document_id score
      → is_allowed 𝓕 e score ≡ false
  refused_lem e score (inl same) =
      let t : (e.source_document_id == e.target_document_id) ≡ true = ground arith in rw t refl
  refused_lem e score (inr n) = elim (Bool-cases (is_in_range 𝓕 score)) [
    | inl t ↦ absurd (n (in_range-InUnit score t))
    | inr f ↦ elim (Bool-cases (e.source_document_id == e.target_document_id)) [
      | inl t ↦ rw t refl
      | inr g ↦ rw (g, f) refl
    ]
  ]

module _ (𝓕 : Floats) (settings : Settings 𝓕.Float) (tenant document : ℕ) where
  -- A rule relates the candidate, and it is the document itself or the score is not in the range of the table.
  abbrev pub IsRefused : Candidate 𝓕.Float → Type 0
  IsRefused c =
      (d : Decision 𝓕.Float) × (classify 𝓕 c settings ≡ some d)
      × ((c.document_id ≡ document) ⊎ (InUnit 𝓕 d.score → ⊥))

  Outcome : Candidate 𝓕.Float → Result (List (DocumentRelation 𝓕.Float)) → Type 0
  Outcome c r =
      ((rows' : List (DocumentRelation 𝓕.Float)) × (r ≡ returns rows') × (IsRefused c → ⊥))
      ⊎ ((r ≡ raises integrity_error) × IsRefused c)

  write_edges_cases :
      (c : Candidate 𝓕.Float) (rows : List (DocumentRelation 𝓕.Float))
      (o : Option (Decision 𝓕.Float))
      → classify 𝓕 c settings ≡ o
      → Outcome c (write_edges 𝓕 tenant document c.document_id o rows)
  unfolding Outcome upsert_relation
  write_edges_cases c rows none k = inl (rows, refl, (λ (d, e, u). cc (k, e)))
  write_edges_cases c rows (some d) k = elim (fit_cases 𝓕 document c.document_id d.score) [
    | inl (n, u) ↦
        let there = allowed_lem 𝓕 (edge_of tenant document c.document_id d) d.score n u in
        let back =
          allowed_lem 𝓕 (edge_of tenant c.document_id document d) d.score (λ p. n (sym p)) u in
        inl (
          insert_or_update (edge_of tenant c.document_id document d) d
              (insert_or_update (edge_of tenant document c.document_id d) d rows),
          rw (upsert_relation, there, upsert_relation, back) refl,
          fits n u,
        )
    | inr bad ↦ inr (
      rw (upsert_relation, refused_lem 𝓕 (edge_of tenant document c.document_id d) d.score bad)
          refl,
      (d, k, turned bad),
    )
  ]
    where
      fits : document ≢ c.document_id → InUnit 𝓕 d.score → IsRefused c → ⊥
      fits n u (d', e, inl p) = n (sym p)
      fits n u (d', e, inr v) =
          let same : some d ≡ some d' = sym k ∙ e in v (subst (InUnit 𝓕) (scores same) u)
        where
          scores : some d ≡ some d' → d.score ≡ d'.score
          scores p = cc p

      turned :
          (document ≡ c.document_id) ⊎ (InUnit 𝓕 d.score → ⊥)
          → (c.document_id ≡ document) ⊎ (InUnit 𝓕 d.score → ⊥)
      turned (inl p) = inl (sym p)
      turned (inr n) = inr n

  -- Whether the relations of a document are written: they are exactly if no rule relates a candidate that is the
  -- document itself, or with a score outside of 0 to 1; one such candidate ends the run with an integrity error.
  pub detect_relations_cases :
      (cs : List (Candidate 𝓕.Float)) (rows : List (DocumentRelation 𝓕.Float))
      → ((rows' : List (DocumentRelation 𝓕.Float)) × (detect_relations 𝓕 settings tenant document cs
              rows
            ≡ returns rows')
          × All (λ c. IsRefused c → ⊥) cs)
        ⊎ ((detect_relations 𝓕 settings tenant document cs rows ≡ raises integrity_error)
            × (c : Candidate 𝓕.Float) × In c cs
            × IsRefused c)
  unfolding detect_relations Outcome
  detect_relations_cases [] rows = inl (rows, refl, tt)
  detect_relations_cases (c ∷ cs) rows =
      by_first (write_edges 𝓕 tenant document c.document_id (classify 𝓕 c settings) rows)
        (write_edges_cases c rows (classify 𝓕 c settings) refl) (detect_relations_cases cs)
    where
      Rest : List (DocumentRelation 𝓕.Float) → Type 0
      Rest middle =
          ((rows' : List (DocumentRelation 𝓕.Float)) × (detected 𝓕 settings tenant document cs
                middle
              ≡ returns rows')
            × All (λ c. IsRefused c → ⊥) cs)
          ⊎ ((detected 𝓕 settings tenant document cs middle ≡ raises integrity_error)
              × (c : Candidate 𝓕.Float) × In c cs
              × IsRefused c)

      by_first :
          (r : Result (List (DocumentRelation 𝓕.Float)))
          → Outcome c r
          → ((middle : List (DocumentRelation 𝓕.Float)) → Rest middle)
          → ((rows' : List (DocumentRelation 𝓕.Float)) × ((r
                  >>= detected 𝓕 settings tenant document cs)
                ≡ returns rows')
              × All (λ c. IsRefused c → ⊥) (c ∷ cs))
            ⊎ (((r >>= detected 𝓕 settings tenant document cs) ≡ raises integrity_error)
                × (x : Candidate 𝓕.Float) × In x (c ∷ cs)
                × IsRefused x)
      by_first r (inl (middle, e, n)) rest = elim (rest middle) [
        | inl (rows', f, ns) ↦ inl (rows', rw e f, (n, ns))
        | inr (f, x, i, b) ↦ inr (rw e f, x, inr i, b)
      ]
      by_first r (inr (e, b)) rest = inr (rw e refl, c, inl refl, b)

  -- The relations of a document are written for candidates that are distinct and other than the document, with
  -- similarities, if any, from 0 to 1; then every candidate that a rule relates to the document has an edge in
  -- each direction, with the decision's score and reason. Floats are ordered.
  pub detect_relations-both_ways :
      IsOrdered 𝓕
      → (cs : List (Candidate 𝓕.Float)) (rows : List (DocumentRelation 𝓕.Float))
      → Pairs (λ a b. b.document_id ≢ a.document_id) cs
      → All (λ b. b.document_id ≢ document) cs
      → All (λ b. InUnit 𝓕 b.similarity) cs
      → (c : Candidate 𝓕.Float) (d : Decision 𝓕.Float) → In c cs
      → classify 𝓕 c settings ≡ some d
      → (rows' : List (DocumentRelation 𝓕.Float)) × (detect_relations 𝓕 settings tenant document cs
            rows
          ≡ returns rows')
        × (find (edge_of tenant document c.document_id d) rows' ≡ some (verdict d))
        × (find (edge_of tenant c.document_id document d) rows' ≡ some (verdict d))
  detect_relations-both_ways o cs rows u n s c d i h = elim (detect_relations_cases cs rows) [
    | inl (rows', r, ns) ↦
        let (there, back) =
          detect_relations-found 𝓕 settings tenant document cs rows rows' r u n c d i h in
        (rows', r, there, back)
    | inr (r, x, j, b) ↦ absurd (
        fits x (All-In (λ b. b.document_id ≢ document) cs n j)
          (All-In (λ b. InUnit 𝓕 b.similarity) cs s j) b)
  ]
    where
      fits :
          (c : Candidate 𝓕.Float)
          → c.document_id ≢ document
          → InUnit 𝓕 c.similarity
          → IsRefused c
          → ⊥
      fits c m t (d, e, inl p) = m p
      fits c m t (d, e, inr v) = v (classify-InUnit 𝓕 o c settings d t e)
