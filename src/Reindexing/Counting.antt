-- ===== src/Reindexing/Counting.antt =====
-- `reindex_tenant` of app/services/reindexing.py: its loop and its counts.
use document_intelligence_mv.Prelude.{
  ℕ, ◌+◌, ◌≡◌, ◌≢◌, ◌⊎◌, inl, inr, refl, sym, ap, subst, ◌∙◌, Option, List, [], ◌∷◌, ◌++◌, Text,
  length, arith, Pairs, nat_eq,
}
use document_intelligence_mv.Errors.{
  Error, Result, raises, returns, no_stored_chunks, vector_store_error, parsing_error,
  package_rejected, object_not_found, indexing_error, profiling_error, reindex_error,
  reindex_not_found, file_too_large, empty_file, unsupported_file_type, value_error,
  integrity_error, unexpected,
}
use document_intelligence_mv.Models.{Document, document_status_eq}
use document_intelligence_mv.Floats.{Floats}
use document_intelligence_mv.Providers.{EmbeddingProvider}
use document_intelligence_mv.VectorStore.{Client}
use document_intelligence_mv.Actions.{pure, bind-returns, ◌>>=◌}
use document_intelligence_mv.World.{World}
use document_intelligence_mv.Reindexing.Worklist.{IsWorklist, ready_documents-IsWorklist}
use document_intelligence_mv.Reindexing.{
  ReindexOutcome, TenantReindexOutcome, Tally, counted, reindex_document, count_all, count_one,
  ready_documents, outcome_of, nothing_counted, reindex_tenant,
}

fate_lem :
    (t v : Tally) (problem : Error)
    → counted t (raises problem) ≡ returns v
    → ((problem ≡ no_stored_chunks) × (record t { skipped = t.skipped + 1 } ≡ v))
      ⊎ ((problem ≢ no_stored_chunks)
          × (problem ≢ vector_store_error)
          × (record t { failed = t.failed + 1 } ≡ v))
fate_lem t v no_stored_chunks h = inl (refl, cc h)
fate_lem t v vector_store_error h = cc h
fate_lem t v parsing_error h = inr ((λ p. cc p), (λ p. cc p), cc h)
fate_lem t v package_rejected h = inr ((λ p. cc p), (λ p. cc p), cc h)
fate_lem t v object_not_found h = inr ((λ p. cc p), (λ p. cc p), cc h)
fate_lem t v indexing_error h = inr ((λ p. cc p), (λ p. cc p), cc h)
fate_lem t v profiling_error h = inr ((λ p. cc p), (λ p. cc p), cc h)
fate_lem t v reindex_error h = inr ((λ p. cc p), (λ p. cc p), cc h)
fate_lem t v reindex_not_found h = inr ((λ p. cc p), (λ p. cc p), cc h)
fate_lem t v file_too_large h = inr ((λ p. cc p), (λ p. cc p), cc h)
fate_lem t v empty_file h = inr ((λ p. cc p), (λ p. cc p), cc h)
fate_lem t v unsupported_file_type h = inr ((λ p. cc p), (λ p. cc p), cc h)
fate_lem t v value_error h = inr ((λ p. cc p), (λ p. cc p), cc h)
fate_lem t v integrity_error h = inr ((λ p. cc p), (λ p. cc p), cc h)
fate_lem t v unexpected h = inr ((λ p. cc p), (λ p. cc p), cc h)

append_one :
    (xs ys : List ReindexOutcome) (o : ReindexOutcome) → (xs ++ (o ∷ [])) ++ ys ≡ xs ++ (o ∷ ys)
append_one [] ys o = refl
append_one (x ∷ xs) ys o = ap (λ zs. x ∷ zs) (append_one xs ys o)

append_nil : (xs : List ReindexOutcome) → xs ≡ xs ++ []
append_nil [] = refl
append_nil (x ∷ xs) = ap (λ zs. x ∷ zs) (append_nil xs)

module _ (𝓕 : Floats) {O S : Type 0} (client : Client S 𝓕.Float)
    (e : EmbeddingProvider (List 𝓕.Float)) (vector_store : Text) (document_vectors : Option Text)
    (combine : List (List 𝓕.Float) → Result (Option (List 𝓕.Float))) (tenant : ℕ) where
  open 𝓕 use {Float}

  abbrev reindexed : Document → World O S Float → World O S Float × Result ReindexOutcome
  reindexed d w = reindex_document 𝓕 client e vector_store document_vectors combine tenant d.id w

  -- Documents that are reindexed one after the other, from one world to another: the outcomes of those that are
  -- reindexed, the number of those without stored chunks, and the number of those that fail otherwise. An
  -- error of the vector store has no place in it.
  pub data Reindexed
      : List Document
        → World O S Float
        → World O S Float
        → List ReindexOutcome
        → ℕ
        → ℕ
        → Type 0 where
    nothing : (w : World O S Float) → Reindexed [] w w [] 0 0
    succeeded :
        (d : Document) (ds : List Document) (w x y : World O S Float) (o : ReindexOutcome)
        (os : List ReindexOutcome) (skipped failed : ℕ)
        → reindexed d w ≡ (x, returns o)
        → Reindexed ds x y os skipped failed
        → Reindexed (d ∷ ds) w y (o ∷ os) skipped failed
    without_chunks :
        (d : Document) (ds : List Document) (w x y : World O S Float) (os : List ReindexOutcome)
        (skipped failed : ℕ)
        → reindexed d w ≡ (x, raises no_stored_chunks)
        → Reindexed ds x y os skipped failed
        → Reindexed (d ∷ ds) w y os (skipped + 1) failed
    broken :
        (d : Document) (ds : List Document) (w x y : World O S Float) (problem : Error)
        (os : List ReindexOutcome) (skipped failed : ℕ)
        → reindexed d w ≡ (x, raises problem)
        → problem ≢ no_stored_chunks
        → problem ≢ vector_store_error
        → Reindexed ds x y os skipped failed
        → Reindexed (d ∷ ds) w y os skipped (failed + 1)

  -- What a loop that starts from the counts `t` adds to them.
  abbrev Adds : Tally → Tally → List Document → World O S Float → World O S Float → Type 0
  Adds t u ds w w' =
      (os : List ReindexOutcome) × (skipped : ℕ) × (failed : ℕ) × Reindexed ds w w' os skipped
        failed
      × (u.results ≡ t.results ++ os)
      × (u.skipped ≡ t.skipped + skipped)
      × (u.failed ≡ t.failed + failed)

  -- One turn before the others.
  turn :
      (t v u : Tally) (d : Document) (ds : List Document) (w x y : World O S Float)
      (r : Result ReindexOutcome)
      → reindexed d w ≡ (x, r)
      → counted t r ≡ returns v
      → Adds v u ds x y
      → Adds t u (d ∷ ds) w y
  turn t v u d ds w x y (returns o) a h (os, i, j, run, p, q, r) =
      let same : record t { results = t.results ++ (o ∷ []) } ≡ v = cc h in
      (
        o ∷ os,
        i,
        j,
        succeeded d ds w x y o os i j a run,
        p ∙ ap (λ (z : Tally). z.results ++ os) (sym same) ∙ append_one t.results os o,
        q ∙ ap (λ (z : Tally). z.skipped + i) (sym same),
        r ∙ ap (λ (z : Tally). z.failed + j) (sym same),
      )
  turn t v u d ds w x y (raises problem) a h (os, i, j, run, p, q, r) =
      elim (fate_lem t v problem h) [
        | inl (e, same) ↦ (
          os,
          i + 1,
          j,
          without_chunks d ds w x y os i j (a ∙ ap (λ z. (x, raises z)) e) run,
          p ∙ ap (λ (z : Tally). z.results ++ os) (sym same),
          q ∙ ap (λ (z : Tally). z.skipped + i) (sym same) ∙ omega arith,
          r ∙ ap (λ (z : Tally). z.failed + j) (sym same),
        )
        | inr (n, m, same) ↦ (
          os,
          i,
          j + 1,
          broken d ds w x y problem os i j a n m run,
          p ∙ ap (λ (z : Tally). z.results ++ os) (sym same),
          q ∙ ap (λ (z : Tally). z.skipped + i) (sym same),
          r ∙ ap (λ (z : Tally). z.failed + j) (sym same) ∙ omega arith,
        )
      ]

  count_all-Adds :
      (t u : Tally) (ds : List Document) (w w' : World O S Float)
      → count_all 𝓕 client e vector_store document_vectors combine tenant t ds w ≡ (w', returns u)
      → Adds t u ds w w'
  unfolding count_all count_one
  count_all-Adds t u [] w w' h =
      let here : w ≡ w' = ap (λ z. z.0) h in
      let same : t ≡ u = cc h in
      subst (λ z. Adds t u [] w z) here
        (
          [],
          0,
          0,
          nothing w,
          ap (λ (z : Tally). z.results) (sym same) ∙ append_nil t.results,
          ap (λ (z : Tally). z.skipped) (sym same) ∙ omega arith,
          ap (λ (z : Tally). z.failed) (sym same) ∙ omega arith,
        )
  count_all-Adds t u (d ∷ ds) w w' h =
      let (v, y, a, k) = bind-returns _ _ w w' u h in
      turn t v u d ds w y w' (reindexed d w).1 (ap (λ z. (z.0, (reindexed d w).1)) a)
        (ap (λ z. z.1) a) (count_all-Adds v u ds y w' k)

  -- A tenant's reindexing that returns has gone through the tenant's live and ready documents, each once and from the
  -- oldest on, and none of them met an error of the vector store. It reports the outcomes of those whose
  -- reindexing returned, in that order, and their number; as skipped those that had no stored chunks, and as failed
  -- those that raised anything else. Ids of documents are unique in the table.
  pub reindex_tenant_counts :
      (w w' : World O S Float) (o : TenantReindexOutcome)
      → Pairs (λ a b. b.id ≢ a.id) w.db.documents
      → reindex_tenant 𝓕 client e vector_store document_vectors combine tenant w ≡ (w', returns o)
      → (ds : List Document) × IsWorklist tenant w.db.documents ds
        × Reindexed ds w w' o.documents o.skipped o.failed
        × (o.reindexed ≡ length o.documents)
        × (o.tenant_id ≡ tenant)
  unfolding reindex_tenant ◌>>=◌
  reindex_tenant_counts w w' o keyed h =
      let ds : List Document = ready_documents tenant w.db.documents in
      let (t, y, a, k) =
        bind-returns
          (count_all 𝓕 client e vector_store document_vectors combine tenant nothing_counted ds)
          (λ t. pure (outcome_of tenant t)) w w' o h in
      let same : outcome_of tenant t ≡ o = cc k in
      let there : y ≡ w' = ap (λ z. z.0) k in
      let (os, i, j, run, p, q, r) = count_all-Adds nothing_counted t ds w y a in
      let skipped : i ≡ t.skipped = omega (arith, q) in
      let failed : j ≡ t.failed = omega (arith, r) in
      let run' : Reindexed ds w w' t.results t.skipped t.failed =
        subst (λ z. Reindexed ds w z t.results t.skipped t.failed) there
          (subst (λ z. Reindexed ds w y z t.skipped t.failed) (sym p)
            (subst (λ z. Reindexed ds w y os z t.failed) skipped
              (subst (λ z. Reindexed ds w y os i z) failed run))) in
      subst
        (λ (x : TenantReindexOutcome).
          (ds : List Document) × IsWorklist tenant w.db.documents ds
          × Reindexed ds w w' x.documents x.skipped x.failed
          × (x.reindexed ≡ length x.documents)
          × (x.tenant_id ≡ tenant))
        same (ds, ready_documents-IsWorklist tenant w.db.documents keyed, run', refl, refl)
