-- ===== src/Deletion/Unindexed.antt =====
-- `delete_document` of app/services/deletion.py: what the two collections of the vector index hold afterwards.
use document_intelligence_mv.Prelude.{
  ℕ, ◌≡◌, ◌⊎◌, refl, sym, ap, subst, ◌∙◌, Bool, true, false, Option, none, some, [], ◌∷◌, Text,
  first, select, inl, inr, is_empty, ==-refl, nat_eq, text_eq, if◌then◌else◌, not,
}
use document_intelligence_mv.Errors.{returns}
use document_intelligence_mv.Models.{Document, is_live_document}
use document_intelligence_mv.Database.{Db}
use document_intelligence_mv.VectorStore.{Point}
use document_intelligence_mv.VectorStore as V
use document_intelligence_mv.VectorStore.Laws.{IsQdrant, entries_of}
use document_intelligence_mv.VectorStore.Index.{
  delete_document-Implements, delete_matching-elsewhere,
}
use document_intelligence_mv.Actions.{Action, pure, bind-returns, ◌>>=◌, ◌>>◌}
use document_intelligence_mv.World.{World, on_objects, execute}
use document_intelligence_mv.Deletion.{
  Services, DeletionOutcome, delete_vectors, delete_normalized, delete_found, delete_if_found,
  is_wanted, delete_document, delete_adapter_artifacts, drop_derived, mark_deleted,
}

module _ {O S F : Type 0} (s : Services O S F) (q : IsQdrant s.client)
    (now tenant document : ℕ) where
  -- A collection that has no point of the document.
  abbrev pub IsEmptied : S → Text → Type 0
  IsEmptied index c = entries_of tenant document (q.points index c) ≡ []

  delete_vectors-IsEmptied :
      (c : Text) (w w' : World O S F)
      → delete_vectors s tenant document (some c) w ≡ (w', returns tt)
      → IsEmptied w'.index c
  delete_vectors-IsEmptied c w w' h =
      delete_document-Implements s.client q c (λ t d. entries_of t d (q.points w.index c)) tenant
        document w.index w'.index (λ t d. refl) (ap (λ x. (x.0.index, x.1)) h) tenant document
      ∙ rw (==-refl tenant, ==-refl document) refl

  delete_vectors-keeps_empty :
      (collection : Option Text) (c : Text) (w w' : World O S F)
      → delete_vectors s tenant document collection w ≡ (w', returns tt)
      → IsEmptied w.index c
      → IsEmptied w'.index c
  unfolding V.delete_document
  delete_vectors-keeps_empty none c w w' h e = subst (λ i. IsEmptied i c) (ap (λ x. x.0.index) h) e
  delete_vectors-keeps_empty (some b) c w w' h e = by_name (text_eq.dec c b)
    where
      by_name : Dec (c ≡ b) → IsEmptied w'.index c
      by_name (yes same) = subst (IsEmptied w'.index) (sym same) (delete_vectors-IsEmptied b w w' h)
      by_name (no apart) =
          ap (entries_of tenant document) (
            delete_matching-elsewhere s.client q b tenant (some (document ∷ [])) c w.index w'.index
              apart (ap (λ x. (x.0.index, x.1)) h))
          ∙ e

  delete_normalized-index :
      (key : Option Text) (w w' : World O S F)
      → delete_normalized s key w ≡ (w', returns tt)
      → w.index ≡ w'.index
  delete_normalized-index none w w' h = ap (λ x. x.0.index) h
  delete_normalized-index (some key) w w' h = by_length (is_empty key) h
    where
      by_length :
          (b : Bool)
          → (if b then pure tt else on_objects (s.storage.delete key)) w ≡ (w', returns tt)
          → w.index ≡ w'.index
      by_length true k = ap (λ x. x.0.index) k
      by_length false k = ap (λ x. x.0.index) k

  -- A step that returns with the index that it was given.
  abbrev KeepsIndex : {A : Type 0} → Action (World O S F) A → Type 0
  KeepsIndex {A} m = (w w' : World O S F) (a : A) → m w ≡ (w', returns a) → w.index ≡ w'.index

  KeepsIndex-bind :
      {A B : Type 0} (m : Action (World O S F) A) (k : A → Action (World O S F) B)
      → KeepsIndex m
      → ((a : A) → KeepsIndex (k a))
      → KeepsIndex (m >>= k)
  KeepsIndex-bind m k f g w z b h =
      let (a, y, p, r) = bind-returns m k w z b h in f w y a p ∙ g a y z b r

  KeepsIndex-on_objects : {A : Type 0} (m : Action O A) → KeepsIndex (on_objects m)
  KeepsIndex-on_objects m w w' a h = ap (λ x. x.0.index) h

  KeepsIndex-execute : (f : Db F → Db F) → KeepsIndex (execute f)
  KeepsIndex-execute f w w' a h = ap (λ x. x.0.index) h

  delete_found-index :
      (d : Document) (w w' : World O S F) (o : Option DeletionOutcome)
      → delete_found s now tenant document d w ≡ (w', returns o)
      → (w1 w2 : World O S F) × (delete_vectors s tenant document s.vector_store w
          ≡ (w1, returns tt))
        × (delete_vectors s tenant document s.document_vectors w1 ≡ (w2, returns tt))
        × (w2.index ≡ w'.index)
  delete_found-index d w w' o h =
      let (_, w1, p1, h1) = bind-returns _ _ w w' o h in
      let (_, w2, p2, h2) = bind-returns _ _ w1 w' o h1 in (w1, w2, p1, p2, rest w2 w' o h2)
    where
      rest : KeepsIndex {A = Option DeletionOutcome} (
          on_objects (s.storage.delete d.storage_key)
          >> (delete_normalized s d.normalized_key
              >> (on_objects (delete_adapter_artifacts s d) >>= λ payload.
                  on_objects (s.drop_document_evidence tenant document)
                  >> (execute (drop_derived tenant document)
                      >> (on_objects (s.drop_package_rows tenant document payload)
                          >> (execute (mark_deleted document now)
                              >> pure (
                                  some (record {
                                    document_id = document;
                                    already_deleted = not (is_live_document d);
                                  }))))))))
      rest = KeepsIndex-bind _ _ (KeepsIndex-on_objects _) (λ _.
          KeepsIndex-bind _ _ (λ y z u. delete_normalized-index d.normalized_key y z)
            (λ _. KeepsIndex-bind _ _ (KeepsIndex-on_objects _) (λ payload.
              KeepsIndex-bind _ _ (KeepsIndex-on_objects _) (λ _.
                KeepsIndex-bind _ _ (KeepsIndex-execute _) (λ _.
                  KeepsIndex-bind _ _ (KeepsIndex-on_objects _) (λ _.
                    KeepsIndex-bind _ _ (KeepsIndex-execute _)
                      (λ _ y z b k. ap (λ x. x.0.index) k)))))))

  -- For a client that keeps to what Qdrant documents, after a deletion that returns an outcome neither the
  -- collection of the chunks nor that of the documents, where the call was given them, has a point of the
  -- tenant's document.
  pub delete_document-IsEmptied :
      (w w' : World O S F) (o : DeletionOutcome) (c : Text)
      → delete_document s now tenant document w ≡ (w', returns (some o))
      → (s.vector_store ≡ some c) ⊎ (s.document_vectors ≡ some c)
      → IsEmptied w'.index c
  unfolding delete_document ◌>>=◌
  delete_document-IsEmptied w w' o c h given =
      by_row (first (select (is_wanted s tenant document) w.db.documents)) h
    where
      emptied :
          (w1 w2 : World O S F)
          → delete_vectors s tenant document s.vector_store w ≡ (w1, returns tt)
          → delete_vectors s tenant document s.document_vectors w1 ≡ (w2, returns tt)
          → (s.vector_store ≡ some c) ⊎ (s.document_vectors ≡ some c)
          → IsEmptied w2.index c
      emptied w1 w2 p1 p2 (inl e) = delete_vectors-keeps_empty s.document_vectors c w1 w2 p2 (
          delete_vectors-IsEmptied c w w1
            (subst (λ v. delete_vectors s tenant document v w ≡ (w1, returns tt)) e p1))
      emptied w1 w2 p1 p2 (inr e) =
          delete_vectors-IsEmptied c w1 w2
            (subst (λ v. delete_vectors s tenant document v w1 ≡ (w2, returns tt)) e p2)

      by_row :
          (found : Option Document)
          → delete_if_found s now tenant document found w ≡ (w', returns (some o))
          → IsEmptied w'.index c
      by_row none k = cc k
      by_row (some d) k =
          let (w1, w2, p1, p2, same) = delete_found-index d w w' (some o) k in
          subst (λ i. IsEmptied i c) same (emptied w1 w2 p1 p2 given)
