-- ===== src/Deletion/Gone.antt =====
-- `delete_document` of app/services/deletion.py: the tables after it, and what still reads the document.
use document_intelligence_mv.Prelude.{
  ℕ, ◌≡◌, ◌≢◌, ◌↔◌, ◌⊎◌, ◌&&◌, refl, sym, ap, subst, ◌∙◌, In-select, In-select_intro,
  update_where-others, In-update_where_intro, first-All, All-of-In, Bool, true, false, not, Option,
  none, some, List, [], ◌∷◌, Text, first, select, Option-cases, inl, inr, All, In, All-In,
  All-select_test, All-update_where-In, is_empty, ◌==◌, nat_eq, arith, if◌then◌else◌,
}
use document_intelligence_mv.Errors.{returns}
use document_intelligence_mv.Models.{
  Document, Chunk, DocumentProfile, IngestionJob, is_live_document,
}
use document_intelligence_mv.Floats.{Floats}
use document_intelligence_mv.Relations.{DocumentRelation}
use document_intelligence_mv.Database.{Db}
use document_intelligence_mv.Lexical.{LexicalHit, resolve_source}
use document_intelligence_mv.Lexical.Isolation.{resolve_source-Quotes}
use document_intelligence_mv.Actions.{pure, bind-returns, pure-returns, ◌>>=◌}
use document_intelligence_mv.World.{
  World, on_objects, Keeps, Keeps-pure, Keeps-on_index, Keeps-on_objects,
}
use document_intelligence_mv.Deletion.{
  Services, DeletionOutcome, is_its_chunk, is_its_profile, is_its_relation, is_its_job,
  drop_derived, mark_deleted, stamped, delete_vectors, delete_normalized, delete_adapter_artifacts,
  delete_found, delete_if_found, is_wanted, delete_document,
}

-- A row of another tenant or of another document.
abbrev pub OfOthers : ℕ → ℕ → ℕ → ℕ → Type 0
OfOthers tenant document of_tenant of_document = (of_tenant ≢ tenant) ⊎ (of_document ≢ document)

module _ {O S F : Type 0} (s : Services O S F) (now tenant document : ℕ) where
  module _ (I : Db F → Type 0) where
    delete_vectors-Keeps :
        (collection : Option Text) → Keeps I (delete_vectors s tenant document collection)
    delete_vectors-Keeps none = Keeps-pure I tt
    delete_vectors-Keeps (some c) = Keeps-on_index I _

    delete_normalized-Keeps : (key : Option Text) → Keeps I (delete_normalized s key)
    delete_normalized-Keeps none = Keeps-pure I tt
    delete_normalized-Keeps (some key) = by_length (is_empty key)
      where
        by_length :
            (b : Bool)
            → Keeps {O = O} {S = S} I (if b then pure tt else on_objects (s.storage.delete key))
        by_length true = Keeps-pure I tt
        by_length false = Keeps-on_objects I (s.storage.delete key)

  -- The tables after a deletion of a document that was found.
  abbrev pub deleted_tables : Db F → Db F
  deleted_tables db = mark_deleted document now (drop_derived tenant document db)

  delete_found-tables :
      (d : Document) (w w' : World O S F) (o : Option DeletionOutcome)
      → delete_found s now tenant document d w ≡ (w', returns o)
      → (deleted_tables w.db ≡ w'.db)
        × (some (record { document_id = document; already_deleted = not (is_live_document d) }) ≡ o)
  delete_found-tables d w w' o h =
      let (_, w1, p1, h1) = bind-returns _ _ w w' o h in
      let (_, w2, p2, h2) = bind-returns _ _ w1 w' o h1 in
      let (_, w3, p3, h3) = bind-returns _ _ w2 w' o h2 in
      let (_, w4, p4, h4) = bind-returns _ _ w3 w' o h3 in
      let (payload, w5, p5, h5) = bind-returns _ _ w4 w' o h4 in
      let (_, w6, p6, h6) = bind-returns _ _ w5 w' o h5 in
      let (_, w7, p7, h7) = bind-returns _ _ w6 w' o h6 in
      let (_, w8, p8, h8) = bind-returns _ _ w7 w' o h7 in
      let (_, w9, p9, h9) = bind-returns _ _ w8 w' o h8 in
      let e2 =
        delete_vectors-Keeps (λ x. w.db ≡ x) s.document_vectors w1 w2 tt p2
          (delete_vectors-Keeps (λ x. w.db ≡ x) s.vector_store w w1 tt p1 refl) in
      let e4 =
        delete_normalized-Keeps (λ x. w.db ≡ x) d.normalized_key w3 w4 tt p4
          (Keeps-on_objects (λ x. w.db ≡ x) (s.storage.delete d.storage_key) w2 w3 tt p3 e2) in
      let e6 =
        Keeps-on_objects (λ x. w.db ≡ x) (s.drop_document_evidence tenant document) w5 w6 tt p6
          (Keeps-on_objects (λ x. w.db ≡ x) (delete_adapter_artifacts s d) w4 w5 payload p5 e4) in
      let e7 = ap (drop_derived tenant document) e6 ∙ ap (λ x. x.0.db) p7 in
      let e8 =
        Keeps-on_objects (λ x. drop_derived tenant document w.db ≡ x)
          (s.drop_package_rows tenant document payload) w7 w8 tt p8 e7 in
      (
        ap (mark_deleted document now) e8 ∙ ap (λ x. x.0.db) p9 ∙ ap (λ x. x.0.db) h9,
        pure-returns _ o w9 w' h9,
      )

  -- No chunk, profile or job of the document is left in the tables, no relation to it or from it, and its row
  -- counts as deleted. What belongs to other documents stays.
  pub record IsGone (before after : Db F) : Type 0 where
    pub no_chunk : All (λ c. c.tenant_id ≡ tenant → c.document_id ≢ document) after.chunks
    pub no_profile : All (λ p. p.tenant_id ≡ tenant → p.document_id ≢ document) after.profiles
    pub no_relation :
        All
          (λ r.
            r.edge.tenant_id ≡ tenant
            → (r.edge.source_document_id ≢ document) × (r.edge.target_document_id ≢ document))
          after.relations
    pub no_job : All (λ j. j.tenant_id ≡ tenant → j.document_id ≢ document) after.jobs
    pub other_jobs :
        (j : IngestionJob)
        → OfOthers tenant document j.tenant_id j.document_id
        → In j before.jobs ↔ In j after.jobs
    pub other_profiles :
        (p : DocumentProfile)
        → OfOthers tenant document p.tenant_id p.document_id
        → In p before.profiles ↔ In p after.profiles
    pub other_relations :
        (r : DocumentRelation F)
        → (r.edge.tenant_id ≢ tenant)
          ⊎ ((r.edge.source_document_id ≢ document) × (r.edge.target_document_id ≢ document))
        → In r before.relations ↔ In r after.relations
    pub deleted :
        All (λ (d : Document). d.id ≡ document → is_live_document d ≡ false) after.documents
    pub others : (d : Document) → d.id ≢ document → In d before.documents ↔ In d after.documents
    pub other_chunks :
        (c : Chunk)
        → OfOthers tenant document c.tenant_id c.document_id
        → In c before.chunks ↔ In c after.chunks

  of_others : (a b : ℕ) → OfOthers tenant document a b → (a == tenant && b == document) ≡ false
  of_others a b (inl n) = ground arith
  of_others a b (inr n) = ground arith

  deleted_tables-IsGone : (db : Db F) → IsGone db (deleted_tables db)
  unfolding drop_derived mark_deleted
  deleted_tables-IsGone db = record {
    no_chunk =
        All-select_test _ (λ c. not (is_its_chunk tenant document c)) db.chunks
          (λ c t a b. not_its c.tenant_id c.document_id t a b);
    no_profile =
        All-select_test _ (λ p. not (is_its_profile tenant document p)) db.profiles
          (λ p t a b. not_its p.tenant_id p.document_id t a b);
    no_relation =
        All-select_test _ (λ r. not (is_its_relation tenant document r)) db.relations
          (λ r t a. ((λ b. absurd (ground arith)), (λ b. absurd (ground arith))));
    no_job =
        All-select_test _ (λ j. not (is_its_job tenant document j)) db.jobs
          (λ j t a b. not_its j.tenant_id j.document_id t a b);
    other_jobs = λ j other.
        stays (is_its_job tenant document) db.jobs j (of_others j.tenant_id j.document_id other);
    other_profiles = λ p other.
        stays (is_its_profile tenant document) db.profiles p
          (of_others p.tenant_id p.document_id other);
    other_relations =
        λ r other. stays (is_its_relation tenant document) db.relations r (no_edge r other);
    deleted =
        All-update_where-In (λ d. Unit) (λ d. d.id ≡ document → is_live_document d ≡ false)
          (λ d. d.id == document) (stamped now) db.documents (λ d i t u e. stamped_lem d)
          (λ d i t u e. absurd (ground arith)) (every db.documents);
    others = λ d other.
        update_where-others (λ (x : Document). x.id) document (λ d. d.id == document) (stamped now)
          db.documents d (λ a t. ground arith) stamped_id other;
    other_chunks = λ c other.
        stays (is_its_chunk tenant document) db.chunks c
          (of_others c.tenant_id c.document_id other);
  }
    where
      not_its : (a b : ℕ) → not (a == tenant && b == document) ≡ true → a ≡ tenant → b ≢ document
      not_its a b t e f = ground arith

      stays :
          {A : Type 0} (p : A → Bool) (xs : List A) (x : A)
          → p x ≡ false
          → In x xs ↔ In x (select (λ y. not (p y)) xs)
      stays p xs x f = (
        (λ i. In-select_intro (λ y. not (p y)) xs x i (rw f refl)),
        (λ i. (In-select (λ y. not (p y)) xs x i).0),
      )

      no_edge :
          (r : DocumentRelation F)
          → (r.edge.tenant_id ≢ tenant)
            ⊎ ((r.edge.source_document_id ≢ document) × (r.edge.target_document_id ≢ document))
          → is_its_relation tenant document r ≡ false
      no_edge r (inl n) = ground arith
      no_edge r (inr (m, n)) = ground arith

      every : (xs : List Document) → All (λ d. Unit {0}) xs
      every [] = tt
      every (x ∷ xs) = (tt, every xs)

      stamped_lem : (d : Document) → is_live_document (stamped now d) ≡ false
      stamped_lem d = ground arith

      stamped_id : (d : Document) → (stamped now d).id ≡ d.id
      stamped_id d = ground arith

  -- The tables and the outcome of a deletion, from the row that it has found.
  pub delete_document-tables :
      (w w' : World O S F) (o : DeletionOutcome)
      → delete_document s now tenant document w ≡ (w', returns (some o))
      → (deleted_tables w.db ≡ w'.db)
        × ((d : Document) × In d w.db.documents
            × (d.id ≡ document)
            × (not (is_live_document d) ≡ o.already_deleted))
  unfolding delete_document ◌>>=◌
  delete_document-tables w w' o h =
      by_row (first (select (is_wanted s tenant document) w.db.documents)) refl h
    where
      by_row :
          (found : Option Document)
          → first (select (is_wanted s tenant document) w.db.documents) ≡ found
          → delete_if_found s now tenant document found w ≡ (w', returns (some o))
          → (deleted_tables w.db ≡ w'.db)
            × ((d : Document) × In d w.db.documents
                × (d.id ≡ document)
                × (not (is_live_document d) ≡ o.already_deleted))
      by_row none e k = cc k
      by_row (some d) e k =
          let (tables, outcome) = delete_found-tables d w w' (some o) k in
          let (i, t) =
            first-All (λ x. In x w.db.documents × (is_wanted s tenant document x ≡ true))
              (select (is_wanted s tenant document) w.db.documents)
              (All-of-In (λ x. In x w.db.documents × (is_wanted s tenant document x ≡ true))
                (select (is_wanted s tenant document) w.db.documents)
                (λ x j. In-select (is_wanted s tenant document) w.db.documents x j))
              e in
          (tables, (d, i, ground arith, ap flag outcome))
        where
          flag : Option DeletionOutcome → Bool
          flag none = false
          flag (some x) = x.already_deleted

  -- The row that a deletion was about, as it stands afterwards.
  pub delete_document-row :
      (w w' : World O S F) (o : DeletionOutcome)
      → delete_document s now tenant document w ≡ (w', returns (some o))
      → (x : Document) × In x w'.db.documents × (x.id ≡ document) × (x.tenant_id ≡ tenant)
  unfolding delete_document mark_deleted drop_derived ◌>>=◌
  delete_document-row w w' o h =
      by_row (first (select (is_wanted s tenant document) w.db.documents)) refl h
    where
      by_row :
          (found : Option Document)
          → first (select (is_wanted s tenant document) w.db.documents) ≡ found
          → delete_if_found s now tenant document found w ≡ (w', returns (some o))
          → (x : Document) × In x w'.db.documents × (x.id ≡ document) × (x.tenant_id ≡ tenant)
      by_row none e k = cc k
      by_row (some d) e k =
          let (i, t) =
            first-All (λ x. In x w.db.documents × (is_wanted s tenant document x ≡ true))
              (select (is_wanted s tenant document) w.db.documents)
              (All-of-In (λ x. In x w.db.documents × (is_wanted s tenant document x ≡ true))
                (select (is_wanted s tenant document) w.db.documents)
                (λ x j. In-select (is_wanted s tenant document) w.db.documents x j))
              e in
          (
            (if d.id == document then stamped now d else d),
            subst (λ (x : Db F). In (if d.id == document then stamped now d else d) x.documents)
                ((delete_found-tables d w w' (some o) k).0)
                (In-update_where_intro (λ x. x.id == document) (stamped now) w.db.documents d i),
            ground arith,
            ground arith,
          )

  -- A deletion that returns an outcome, of a document of the tenant, leaves of it no chunk, no profile, no relation to or
  -- from it and no job of the tenant in the tables, and no row with its id that is not deleted; the rows
  -- of other documents stay in all five tables.
  pub delete_document-IsGone :
      (w w' : World O S F) (o : DeletionOutcome)
      → delete_document s now tenant document w ≡ (w', returns (some o))
      → IsGone w.db w'.db
  unfolding delete_document ◌>>=◌
  delete_document-IsGone w w' o h =
      by_row (first (select (is_wanted s tenant document) w.db.documents)) h
    where
      by_row :
          (found : Option Document)
          → delete_if_found s now tenant document found w ≡ (w', returns (some o))
          → IsGone w.db w'.db
      by_row none k = cc k
      by_row (some d) k =
          subst (IsGone w.db) ((delete_found-tables d w w' (some o) k).0)
            (deleted_tables-IsGone w.db)

module _ (𝓕 : Floats) {O S : Type 0} (s : Services O S 𝓕.Float) (now tenant document : ℕ) where
  -- After a deletion that returns an outcome no citation of the document resolves any more.
  pub resolve_source-delete_document :
      (w w' : World O S 𝓕.Float) (o : DeletionOutcome) (source : Text)
      → delete_document s now tenant document w ≡ (w', returns (some o))
      → resolve_source 𝓕 w'.db tenant document source ≡ none
  resolve_source-delete_document w w' o source h =
      elim (Option-cases (resolve_source 𝓕 w'.db tenant document source)) [
        | inl e ↦ e
        | inr (hit, e) ↦
            let (q, in_document, _) = resolve_source-Quotes 𝓕 w'.db tenant document source hit e in
            let gone = delete_document-IsGone s now tenant document w w' o h in
            let of_document : q.chunk.document_id ≡ document =
              sym (ap (λ (y : LexicalHit 𝓕.Float). y.document_id) q.same) ∙ in_document in
            absurd (
              All-In (λ c. c.tenant_id ≡ tenant → c.document_id ≢ document) w'.db.chunks
                gone.no_chunk q.chunk_stored q.of_tenant of_document)
      ]
