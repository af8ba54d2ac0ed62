-- ===== src/VectorStore/Index.antt =====
-- app/services/vector_store.py against an index by tenant and document.
use document_intelligence_mv.Prelude.{
  ℕ, ◌≡◌, ◌≢◌, ◌∙◌, refl, sym, ap, subst, Bool, true, false, not, ◌&&◌, ◌==◌, Option, some, List,
  [], ◌∷◌, ◌++◌, map, Text, contains, length, select, All, All-mono, Bool-cases, inl, inr, ◌⊎◌,
  arith, nat_eq, text_eq, if◌then◌else◌, any,
}
use document_intelligence_mv.Errors.{Error, returns, raises, vector_store_error}
use document_intelligence_mv.Actions.{
  Action, pure, raise, attempt, attempt-returns, bind-returns, stop_if, stop_if-returns,
  attempt-raise, ◌>>=◌, ◌>>◌,
}
use document_intelligence_mv.VectorStore.{
  Point, matches, Client, filter_of, collection_is_absent, not_among, delete_matching,
  delete_document, point_of, write_points, upsert_chunks, unless_absent,
}
use document_intelligence_mv.VectorStore.Laws.{
  IsQdrant, is_of, entries_of, filter_of-is_of, append_nil, select-none, select-kept, select-append,
}

module _ {S F : Type 0} (client : Client S F) (q : IsQdrant client) (collection : Text) where
  -- The state holds the index, document by document.
  abbrev pub Implements : (ℕ → ℕ → List (Point F)) → S → Type 0
  Implements index s = (t d : ℕ) → entries_of t d (q.points s collection) ≡ index t d

  -- `index[tenant, document] = ps`
  abbrev pub put : (ℕ → ℕ → List (Point F)) → ℕ → ℕ → List (Point F) → ℕ → ℕ → List (Point F)
  put index tenant document ps t d = if t == tenant && d == document then ps else index t d

  pub absent_lem :
      (s s' : S)
      → collection_is_absent client collection s ≡ (s', returns true)
      → (s' ≡ s) × (q.exists s collection ≡ false)
  unfolding collection_is_absent
  absent_lem s s' h = either (
      attempt-returns (client.get_collections >>= not_among client collection) (λ e. pure false) s
        s' true h)
    where
      either :
          ((client.get_collections >>= not_among client collection) s ≡ (s', returns true))
            ⊎ ((e : Error) × (y : S) × ((client.get_collections >>= not_among client collection) s
                  ≡ (y, raises e))
                × (pure {X = S} false y ≡ (s', returns true)))
          → (s' ≡ s) × (q.exists s collection ≡ false)
      either (inl k) =
          let (names, y, e, m) =
            bind-returns client.get_collections (not_among client collection) s s' true k in
          let (same, has) = q.listed s y names e in
          let there : y ≡ s' = ap (λ z. z.0) m in
          let found : not (contains names collection) ≡ true = cc m in
          (sym there ∙ same, ground (arith, has collection, found))
      either (inr (e, y, k, m)) = cc m

  -- A deletion that returns has taken the matching points out, and those alone.
  delete_matching-points :
      (tenant : ℕ) (documents : Option (List ℕ)) (s s' : S)
      → delete_matching client collection tenant documents s ≡ (s', returns tt)
      → q.points s' collection
        ≡ select (λ p. not (matches (filter_of tenant documents) p.payload)) (q.points s collection)
  unfolding delete_matching
  delete_matching-points tenant documents s s' h = either (
      attempt-returns (client.delete collection (filter_of tenant documents))
        (λ e. collection_is_absent client collection >>= unless_absent client collection tt) s s' tt
        h)
    where
      by_answer :
          (y z : S) (b : Bool)
          → q.exists y collection ≡ q.exists s collection
          → collection_is_absent client collection y ≡ (z, returns b)
          → unless_absent client collection tt b z ≡ (s', returns tt)
          → q.points s' collection
            ≡ select
                (λ p. not (matches (filter_of tenant documents) p.payload))
                (q.points s collection)
      by_answer y z true x e k =
          let (same, gone) = absent_lem y z e in
          let there : z ≡ s' = ap (λ w. w.0) k in
          rw (
            ← there,
            same,
            q.points_of_absent y collection gone,
            q.points_of_absent s collection (sym x ∙ gone),
          )
      by_answer y z false x e k = cc k

      either :
          (client.delete collection (filter_of tenant documents) s ≡ (s', returns tt))
            ⊎ ((e : Error) × (y : S) × (client.delete collection (filter_of tenant documents) s
                  ≡ (y, raises e))
                × ((collection_is_absent client collection >>= unless_absent client collection tt) y
                    ≡ (s', returns tt)))
          → q.points s' collection
            ≡ select
                (λ p. not (matches (filter_of tenant documents) p.payload))
                (q.points s collection)
      either (inl k) = q.deleted collection (filter_of tenant documents) s s' k
      either (inr (e, y, k, m)) =
          let (b, z, a, u) =
            bind-returns (collection_is_absent client collection)
              (unless_absent client collection tt) y s' tt m in
          by_answer y z b (q.delete_failed collection (filter_of tenant documents) s y e k) a u

  -- Nor does it touch another collection.
  pub delete_matching-elsewhere :
      (tenant : ℕ) (documents : Option (List ℕ)) (other : Text) (s s' : S)
      → other ≢ collection
      → delete_matching client collection tenant documents s ≡ (s', returns tt)
      → q.points s' other ≡ q.points s other
  unfolding delete_matching
  delete_matching-elsewhere tenant documents other s s' apart h = either (
      attempt-returns (client.delete collection (filter_of tenant documents))
        (λ e. collection_is_absent client collection >>= unless_absent client collection tt) s s' tt
        h)
    where
      by_answer :
          (y z : S) (b : Bool)
          → q.points y other ≡ q.points s other
          → collection_is_absent client collection y ≡ (z, returns b)
          → unless_absent client collection tt b z ≡ (s', returns tt)
          → q.points s' other ≡ q.points s other
      by_answer y z true x e k =
          let (same, gone) = absent_lem y z e in
          let there : z ≡ s' = ap (λ w. w.0) k in rw (← there, same) x
      by_answer y z false x e k = cc k

      either :
          (client.delete collection (filter_of tenant documents) s ≡ (s', returns tt))
            ⊎ ((e : Error) × (y : S) × (client.delete collection (filter_of tenant documents) s
                  ≡ (y, raises e))
                × ((collection_is_absent client collection >>= unless_absent client collection tt) y
                    ≡ (s', returns tt)))
          → q.points s' other ≡ q.points s other
      either (inl k) =
          q.deleted_elsewhere collection other (filter_of tenant documents) s s' (returns tt) k
            apart
      either (inr (e, y, k, m)) =
          let (b, z, a, u) =
            bind-returns (collection_is_absent client collection)
              (unless_absent client collection tt) y s' tt m in
          by_answer y z b
            (q.deleted_elsewhere collection other (filter_of tenant documents) s y (raises e) k
              apart)
            a u

  -- After a deletion the index has nothing for the document, and the rest as before.
  pub delete_document-Implements :
      (index : ℕ → ℕ → List (Point F)) (tenant document : ℕ) (s s' : S)
      → Implements index s
      → delete_document client collection tenant document s ≡ (s', returns tt)
      → Implements (put index tenant document []) s'
  unfolding delete_document
  delete_document-Implements index tenant document s s' i h t d =
      rw (delete_matching-points tenant (some (document ∷ [])) s s' h) by_key
    where
      removed : Point F → Bool
      removed p = not (matches (filter_of tenant (some (document ∷ []))) p.payload)

      by_key :
          entries_of t d (select removed (q.points s collection)) ≡ put index tenant document [] t d
      by_key = elim (Bool-cases (t == tenant && d == document)) [
        | inl y ↦ rw y (
            select-none removed (is_of t d) (q.points s collection)
              (λ p. ground (arith, filter_of-is_of tenant document p, y)))
        | inr n ↦ rw n (
            select-kept removed (is_of t d) (q.points s collection)
              (λ p o. ground (arith, filter_of-is_of tenant document p, n, o))
            ∙ i t d)
      ]

  abbrev pub ids_of : List (ℕ × List F × Text) → List ℕ
  ids_of ps = map (λ p. p.0) ps

  -- No other document has a point of these ids, as it is with fresh UUIDs.
  abbrev pub Fresh : (ℕ → ℕ → List (Point F)) → ℕ → ℕ → List (ℕ × List F × Text) → Type 0
  Fresh index tenant document ps =
      (t d : ℕ)
      → (t == tenant && d == document) ≡ false
      → All (λ (p : Point F). contains (ids_of ps) p.id ≡ false) (index t d)

  point_ids :
      (tenant document : ℕ) (ps : List (ℕ × List F × Text))
      → map (λ (p : Point F). p.id) (map (point_of client collection tenant document) ps)
        ≡ ids_of ps
  point_ids tenant document [] = refl
  point_ids tenant document (p ∷ ps) = ap (λ xs. p.0 ∷ xs) (point_ids tenant document ps)

  entries_of-new :
      (tenant document t d : ℕ) (ps : List (ℕ × List F × Text))
      → entries_of t d (map (point_of client collection tenant document) ps) ≡ (
          if t == tenant && d == document
          then map (point_of client collection tenant document) ps
          else [])
  entries_of-new tenant document t d [] = ground arith
  entries_of-new tenant document t d (p ∷ ps) =
      ground (arith, entries_of-new tenant document t d ps)

  select-all :
      (p : Point F → Bool) (xs : List (Point F)) → All (λ x. p x ≡ true) xs → select p xs ≡ xs
  select-all p [] a = refl
  select-all p (x ∷ xs) (h, a) = rw h (ap (λ ys. x ∷ ys) (select-all p xs a))

  select-swap :
      (p r : Point F → Bool) (xs : List (Point F)) → select p (select r xs) ≡ select r (select p xs)
  select-swap p r [] = refl
  select-swap p r (x ∷ xs) = ground (arith, select-swap p r xs)

  write_points-Implements :
      (index : ℕ → ℕ → List (Point F)) (tenant document : ℕ) (ps : List (ℕ × List F × Text))
      (s s' : S) (n : ℕ)
      → Fresh index tenant document ps
      → Implements (put index tenant document []) s
      → write_points client collection tenant document ps s ≡ (s', returns n)
      → Implements
          (put index tenant document (map (point_of client collection tenant document) ps))
          s'
        × (n ≡ length ps)
  write_points-Implements index tenant document [] s s' n f i h =
      let there : s ≡ s' = ap (λ w. w.0) h in
      (subst (Implements (put index tenant document [])) there i, cc h)
  write_points-Implements index tenant document (p ∷ ps) s s' n f i h =
      let (_, y, a, h1) =
        bind-returns
          (stop_if (any (λ x. not (length x.1 == length p.1)) (p ∷ ps)) vector_store_error)
          (λ _. written >> pure (length (p ∷ ps))) s s' n h in
      let (_, z, b, h2) = bind-returns written (λ _. pure (length (p ∷ ps))) y s' n h1 in
      let (here, same) =
        stop_if-returns (any (λ x. not (length x.1 == length p.1)) (p ∷ ps)) vector_store_error s y
          tt a in
      let there : z ≡ s' = ap (λ w. w.0) h2 in
      (
        λ t d.
            rw
              (
                ← there,
                q.upserted collection structs y z
                    (attempt-raise (client.upsert collection structs) vector_store_error y z tt b),
                ← here,
              )
              (by_key t d),
        cc h2,
      )
    where
      structs : List (Point F)
      structs = map (point_of client collection tenant document) (p ∷ ps)

      written : Action S (Unit {0})
      written = attempt (client.upsert collection structs) (λ e. raise vector_store_error)

      others : List (Point F)
      others =
          select (λ x. not (contains (map (λ (r : Point F). r.id) structs) x.id))
            (q.points s collection)

      kept : (t d : ℕ) → entries_of t d others ≡ put index tenant document [] t d
      kept t d =
          select-swap (is_of t d) (λ x. not (contains (map (λ (r : Point F). r.id) structs) x.id))
            (q.points s collection)
          ∙ rw (i t d) (
              select-all (λ x. not (contains (map (λ (r : Point F). r.id) structs) x.id))
                (put index tenant document [] t d) unused)
        where
          unused :
              All
                (λ (x : Point F). not (contains (map (λ (r : Point F). r.id) structs) x.id) ≡ true)
                (put index tenant document [] t d)
          unused = elim (Bool-cases (t == tenant && d == document)) [
            | inl y ↦ rw y tt
            | inr e ↦ rw e (
                All-mono (index t d)
                  (λ x h.
                    ap (λ w. not (contains w x.id)) (point_ids tenant document (p ∷ ps)) ∙ ap not h)
                  (f t d e))
          ]

      by_key :
          (t d : ℕ) → entries_of t d (structs ++ others) ≡ put index tenant document structs t d
      by_key t d =
          rw
            (
              select-append (is_of t d) structs others,
              kept t d,
              entries_of-new tenant document t d (p ∷ ps),
            )
            (elim (Bool-cases (t == tenant && d == document)) [
              | inl y ↦ rw y (append_nil structs)
              | inr e ↦ rw e refl
            ])

  -- For a client that keeps to what Qdrant documents, the state after `upsert_chunks` returns holds the index
  -- with exactly the given chunks for the document, and every other document as before, if no other
  -- document has a point of these chunks' ids; the number returned is that of the chunks.
  pub upsert_chunks-Implements :
      (index : ℕ → ℕ → List (Point F)) (tenant document : ℕ) (ps : List (ℕ × List F × Text))
      (s s' : S) (n : ℕ)
      → Implements index s
      → Fresh index tenant document ps
      → upsert_chunks client collection tenant document ps s ≡ (s', returns n)
      → Implements
          (put index tenant document (map (point_of client collection tenant document) ps))
          s'
        × (n ≡ length ps)
  unfolding upsert_chunks
  upsert_chunks-Implements index tenant document ps s s' n i f h =
      let (_, y, a, k) =
        bind-returns (delete_document client collection tenant document)
          (λ _. write_points client collection tenant document ps) s s' n h in
      write_points-Implements index tenant document ps y s' n f
        (delete_document-Implements index tenant document s y i a) k
