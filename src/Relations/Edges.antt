-- ===== src/Relations/Edges.antt =====
-- `detect_relations` of app/services/relations.py: the edges that it leaves in the table.
use document_intelligence_mv.Prelude.{
  ℕ, ◌≡◌, ◌≢◌, refl, ap, subst, Bool, false, sym, ◌∙◌, true, arith, List, [], ◌∷◌, Option, none,
  some, All, In, Pairs, if◌then◌else◌, any, inl, inr, ◌==◌, update_where,
}
use document_intelligence_mv.Errors.{Result, returns, raises, integrity_error, >>=-returns}
use document_intelligence_mv.Floats.{Floats}
use document_intelligence_mv.Relations.{
  Edge, edge_eq, Settings, Candidate, Decision, Reason, DocumentRelation, edge_of, insert_or_update,
  upsert_relation, is_allowed, write_edges, classify, detect_relations,
}

abbrev pub Verdict : Type 0 → Type 0
Verdict F = record { score : Option F; reason : Reason F }

module _ {F : Type 0} where
  abbrev pub verdict : Decision F → Verdict F
  verdict d = record { score = d.score; reason = d.reason }

  abbrev revised : Decision F → DocumentRelation F → DocumentRelation F
  revised d r = record r { score = d.score; reason = d.reason }

  -- What the table says of an edge.
  unfoldable pub find : Edge → List (DocumentRelation F) → Option (Verdict F)
  find e [] = none
  find e (r ∷ rows) =
      if r.edge == e then some (record { score = r.score; reason = r.reason }) else find e rows

  find-update_ne :
      (e k : Edge) (d : Decision F) (rows : List (DocumentRelation F))
      → e ≢ k
      → find k (update_where (λ r. r.edge == e) (revised d) rows) ≡ find k rows
  unfolding find
  find-update_ne e k d [] n = refl
  find-update_ne e k d (r ∷ rows) n = ground (arith, find-update_ne e k d rows n)

  find-update_self :
      (e : Edge) (d : Decision F) (rows : List (DocumentRelation F))
      → any (λ r. r.edge == e) rows ≡ true
      → find e (update_where (λ r. r.edge == e) (revised d) rows) ≡ some (verdict d)
  unfolding find
  find-update_self e d [] h = cc
  find-update_self e d (r ∷ rows) h = ground (arith, find-update_self e d rows)

  -- One upsert changes what is said of its edge, and of no other.
  pub find-insert_or_update :
      (e k : Edge) (d : Decision F) (rows : List (DocumentRelation F))
      → find k (insert_or_update e d rows) ≡ (if e == k then some (verdict d) else find k rows)
  unfolding find insert_or_update
  find-insert_or_update e k d rows = elim (edge_eq.dec e k) [
    | yes p ↦ ground (arith, find-update_self e d rows, p)
    | no n ↦ ground (arith, find-update_ne e k d rows)
  ]

  -- The two edges of one candidate, if the constraints let them pass.
  abbrev pub both_edges :
      ℕ → ℕ → ℕ → Option (Decision F) → List (DocumentRelation F) → List (DocumentRelation F)
  both_edges tenant document other none rows = rows
  both_edges tenant document other (some d) rows =
      insert_or_update (edge_of tenant other document d) d
        (insert_or_update (edge_of tenant document other d) d rows)

  -- The edges of one candidate lead to it and from it.
  pub find-both_edges :
      (tenant document other : ℕ) (d : Decision F) (rows : List (DocumentRelation F)) (k : Edge)
      → find k (both_edges tenant document other (some d) rows) ≡ (
          if edge_of tenant other document d == k
          then some (verdict d)
          else (if edge_of tenant document other d == k then some (verdict d) else find k rows))
  find-both_edges tenant document other d rows k = simp find-insert_or_update

  -- Writing for one candidate leaves the edges between the document and any other one.
  find-both_edges_other :
      (tenant document other : ℕ) (o : Option (Decision F)) (rows : List (DocumentRelation F))
      (k : Edge)
      → k.source_document_id ≢ other
      → k.target_document_id ≢ other
      → find k (both_edges tenant document other o rows) ≡ find k rows
  find-both_edges_other tenant document other none rows k s t = refl
  find-both_edges_other tenant document other (some d) rows k s t =
      rw find-both_edges (ground arith)

  both_edges-keeps :
      (tenant document other : ℕ) (o : Option (Decision F)) (rows : List (DocumentRelation F))
      (k : Edge)
      → find k rows ≢ none
      → find k (both_edges tenant document other o rows) ≢ none
  both_edges-keeps tenant document other none rows k h e = h e
  both_edges-keeps tenant document other (some d) rows k h e =
      ground (arith, find-both_edges tenant document other d rows k)

  -- The two edges after the writing for one candidate.
  both_edges_self :
      (tenant document other : ℕ) (o : Option (Decision F)) (d : Decision F)
      (rows : List (DocumentRelation F))
      → o ≡ some d
      → (find (edge_of tenant document other d) (both_edges tenant document other o rows)
          ≡ some (verdict d))
        × (find (edge_of tenant other document d) (both_edges tenant document other o rows)
            ≡ some (verdict d))
  both_edges_self tenant document other o d rows h = rw h (
    ground (arith, find-both_edges tenant document other d rows (edge_of tenant document other d)),
    ground (arith, find-both_edges tenant document other d rows (edge_of tenant other document d)),
  )

module _ (𝓕 : Floats) (settings : Settings 𝓕.Float) (tenant document : ℕ) where
  -- The edges of all candidates.
  unfoldable all_edges :
      List (Candidate 𝓕.Float) → List (DocumentRelation 𝓕.Float) → List (DocumentRelation 𝓕.Float)
  all_edges [] rows = rows
  all_edges (c ∷ cs) rows =
      all_edges cs (both_edges tenant document c.document_id (classify 𝓕 c settings) rows)

  abbrev pub detected :
      List (Candidate 𝓕.Float)
      → List (DocumentRelation 𝓕.Float)
      → Result (List (DocumentRelation 𝓕.Float))
  detected = detect_relations 𝓕 settings tenant document

  write_edges-both_edges :
      (other : ℕ) (o : Option (Decision 𝓕.Float)) (rows rows' : List (DocumentRelation 𝓕.Float))
      → write_edges 𝓕 tenant document other o rows ≡ returns rows'
      → both_edges tenant document other o rows ≡ rows'
  unfolding upsert_relation
  write_edges-both_edges other none rows rows' h = cc h
  write_edges-both_edges other (some d) rows rows' h =
      let (middle, p, q) =
        >>=-returns (upsert_relation 𝓕 (edge_of tenant document other d) d rows)
          (upsert_relation 𝓕 (edge_of tenant other document d) d) rows' h in
      let first_edge = passed (edge_of tenant document other d) d rows middle p in
      let second_edge = passed (edge_of tenant other document d) d middle rows' q in
      ap (insert_or_update (edge_of tenant other document d) d) first_edge ∙ second_edge
    where
      passed :
          (e : Edge) (d : Decision 𝓕.Float) (before after : List (DocumentRelation 𝓕.Float))
          → upsert_relation 𝓕 e d before ≡ returns after
          → insert_or_update e d before ≡ after
      passed e d before after k = by_check (is_allowed 𝓕 e d.score) k
        where
          by_check :
              (b : Bool)
              → (if b then returns (insert_or_update e d before) else raises integrity_error)
                ≡ returns after
              → insert_or_update e d before ≡ after
          by_check true m = cc m
          by_check false m = cc m

  -- A run that returns has written the edges of all candidates.
  detect_relations-all_edges :
      (cs : List (Candidate 𝓕.Float)) (rows rows' : List (DocumentRelation 𝓕.Float))
      → detected cs rows ≡ returns rows'
      → all_edges cs rows ≡ rows'
  unfolding detect_relations all_edges
  detect_relations-all_edges [] rows rows' h = cc h
  detect_relations-all_edges (c ∷ cs) rows rows' h =
      let (middle, p, q) =
        >>=-returns (write_edges 𝓕 tenant document c.document_id (classify 𝓕 c settings) rows)
          (detected cs) rows' h in
      ap (all_edges cs) (write_edges-both_edges c.document_id (classify 𝓕 c settings) rows middle p)
      ∙ detect_relations-all_edges cs middle rows' q

  all_edges-stale :
      (cs : List (Candidate 𝓕.Float)) (rows : List (DocumentRelation 𝓕.Float)) (k : Edge)
      → All
          (λ c. (k.source_document_id ≢ c.document_id) × (k.target_document_id ≢ c.document_id))
          cs
      → find k (all_edges cs rows) ≡ find k rows
  unfolding all_edges
  all_edges-stale [] rows k h = refl
  all_edges-stale (c ∷ cs) rows k ((s, t), h) =
      all_edges-stale cs (both_edges tenant document c.document_id (classify 𝓕 c settings) rows) k h
      ∙ find-both_edges_other tenant document c.document_id (classify 𝓕 c settings) rows k s t

  all_edges_kept :
      (cs : List (Candidate 𝓕.Float)) (rows : List (DocumentRelation 𝓕.Float)) (k : Edge)
      → find k rows ≢ none
      → find k (all_edges cs rows) ≢ none
  unfolding all_edges
  all_edges_kept [] rows k h = h
  all_edges_kept (c ∷ cs) rows k h =
      all_edges_kept cs (both_edges tenant document c.document_id (classify 𝓕 c settings) rows) k
        (both_edges-keeps tenant document c.document_id (classify 𝓕 c settings) rows k h)

  all_edges-both_ways :
      (cs : List (Candidate 𝓕.Float)) (rows : List (DocumentRelation 𝓕.Float))
      → Pairs (λ a b. b.document_id ≢ a.document_id) cs
      → (c : Candidate 𝓕.Float) (d : Decision 𝓕.Float) → In c cs
      → All (λ b. b.document_id ≢ document) cs
      → classify 𝓕 c settings ≡ some d
      → (find (edge_of tenant document c.document_id d) (all_edges cs rows) ≡ some (verdict d))
        × (find (edge_of tenant c.document_id document d) (all_edges cs rows) ≡ some (verdict d))
  unfolding all_edges
  all_edges-both_ways [] rows u c d i n h = elim i [ ]
  all_edges-both_ways (x ∷ cs) rows (a, u) c d (inr i) (m, n) h =
      all_edges-both_ways cs (both_edges tenant document x.document_id (classify 𝓕 x settings) rows)
        u c d i n h
  all_edges-both_ways (x ∷ cs) rows (a, u) c d (inl e) (m, n) h = rw e (
    all_edges-stale cs _ (edge_of tenant document x.document_id d)
          (All-zip document x.document_id cs n a)
        ∙ first_edges.0,
    all_edges-stale cs _ (edge_of tenant x.document_id document d)
          (All-zip x.document_id document cs a n)
        ∙ first_edges.1,
  )
    where
      h' : classify 𝓕 x settings ≡ some d
      h' = rw e at h

      first_edges :
          (find
              (edge_of tenant document x.document_id d)
              (both_edges tenant document x.document_id (classify 𝓕 x settings) rows)
            ≡ some (verdict d))
          × (find
                (edge_of tenant x.document_id document d)
                (both_edges tenant document x.document_id (classify 𝓕 x settings) rows)
              ≡ some (verdict d))
      first_edges = both_edges_self tenant document x.document_id (classify 𝓕 x settings) d rows h'

      All-zip :
          (y z : ℕ) (xs : List (Candidate 𝓕.Float))
          → All (λ b. b.document_id ≢ y) xs
          → All (λ b. b.document_id ≢ z) xs
          → All (λ b. (y ≢ b.document_id) × (z ≢ b.document_id)) xs
      All-zip y z [] p q = tt
      All-zip y z (b ∷ xs) (p, ps) (q, qs) =
          ((λ e'. p (sym e'), λ e'. q (sym e')), All-zip y z xs ps qs)

  -- A run that returns leaves what is said of two documents as it was, if neither is among the candidates: relations of an
  -- earlier run are not removed.
  pub detect_relations-stale :
      (cs : List (Candidate 𝓕.Float)) (rows rows' : List (DocumentRelation 𝓕.Float)) (k : Edge)
      → detected cs rows ≡ returns rows'
      → All
          (λ c. (k.source_document_id ≢ c.document_id) × (k.target_document_id ≢ c.document_id))
          cs
      → find k rows' ≡ find k rows
  detect_relations-stale cs rows rows' k r h =
      subst (λ x. find k x ≡ find k rows) (detect_relations-all_edges cs rows rows' r)
        (all_edges-stale cs rows k h)

  -- No edge that was in the table is lost, whatever the candidates.
  pub detect_relations_kept :
      (cs : List (Candidate 𝓕.Float)) (rows rows' : List (DocumentRelation 𝓕.Float)) (k : Edge)
      → detected cs rows ≡ returns rows'
      → find k rows ≢ none
      → find k rows' ≢ none
  detect_relations_kept cs rows rows' k r h =
      subst (λ x. find k x ≢ none) (detect_relations-all_edges cs rows rows' r)
        (all_edges_kept cs rows k h)

  pub detect_relations-found :
      (cs : List (Candidate 𝓕.Float)) (rows rows' : List (DocumentRelation 𝓕.Float))
      → detected cs rows ≡ returns rows'
      → Pairs (λ a b. b.document_id ≢ a.document_id) cs
      → All (λ b. b.document_id ≢ document) cs
      → (c : Candidate 𝓕.Float) (d : Decision 𝓕.Float) → In c cs
      → classify 𝓕 c settings ≡ some d
      → (find (edge_of tenant document c.document_id d) rows' ≡ some (verdict d))
        × (find (edge_of tenant c.document_id document d) rows' ≡ some (verdict d))
  detect_relations-found cs rows rows' r u n c d i h =
      subst
        (λ x.
          (find (edge_of tenant document c.document_id d) x ≡ some (verdict d))
          × (find (edge_of tenant c.document_id document d) x ≡ some (verdict d)))
        (detect_relations-all_edges cs rows rows' r) (all_edges-both_ways cs rows u c d i n h)
