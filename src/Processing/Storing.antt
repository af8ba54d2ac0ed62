-- ===== src/Processing/Storing.antt =====
-- `replace_chunks` of app/services/processing.py: the rows of the chunks table after it.
use document_intelligence_mv.Prelude.{
  ℕ, suc, ◌≡◌, ◌≢◌, ◌⊎◌, refl, sym, ap, subst, Bool, true, false, not, List, [], ◌∷◌, arith, inl,
  inr, In, Pairs, Pairs-select, All-mono, any, any-false, select, In-select, In-select_intro, ◌==◌,
  nat_eq, text_eq, if◌then◌else◌,
}
use document_intelligence_mv.Errors.{Result, raises, returns, integrity_error}
use document_intelligence_mv.Models.{Document, Chunk}
use document_intelligence_mv.Database.{Db, IsKeyed}
use document_intelligence_mv.Normalization as N
use document_intelligence_mv.Normalization.{source_id_for}
use document_intelligence_mv.Processing.{
  ParsedChunk, clashes, insert_chunks, with_chunks, chunk_of, chunks_of, replace_chunks,
}

-- The constraints on the rows of the chunks table.
abbrev pub IsKeyedTable : List Chunk → Type 0
IsKeyedTable rows =
    Pairs (λ a b. b.id ≢ a.id) rows
    × Pairs (λ a b. b.tenant_id ≡ a.tenant_id → b.source_id ≢ a.source_id) rows

insert_chunks-step :
    (new : Chunk) (more rows rows' : List Chunk)
    → insert_chunks (new ∷ more) rows ≡ returns rows'
    → (any (clashes new) rows ≡ false) × (insert_chunks more (new ∷ rows) ≡ returns rows')
unfolding insert_chunks
insert_chunks-step new more rows rows' h =
    by_clash (any (clashes new) rows) (insert_chunks more (new ∷ rows)) h
  where
    by_clash :
        (b : Bool) (rest : Result (List Chunk))
        → (if b then raises integrity_error else rest) ≡ returns rows'
        → (b ≡ false) × (rest ≡ returns rows')
    by_clash true rest k = cc k
    by_clash false rest k = (refl, k)

-- Rows that are inserted keep the constraints.
pub insert_chunks-IsKeyedTable :
    (new rows rows' : List Chunk)
    → insert_chunks new rows ≡ returns rows'
    → IsKeyedTable rows
    → IsKeyedTable rows'
unfolding insert_chunks
insert_chunks-IsKeyedTable [] rows rows' h k =
    let same : rows ≡ rows' = cc h in subst IsKeyedTable same k
insert_chunks-IsKeyedTable (new ∷ more) rows rows' h (ids, sources) =
    let (f, rest) = insert_chunks-step new more rows rows' h in
    insert_chunks-IsKeyedTable more (new ∷ rows) rows' rest (
      (All-mono rows (λ c n. ground arith) (any-false (clashes new) rows f), ids),
      (All-mono rows (λ c n same. ground arith) (any-false (clashes new) rows f), sources),
    )

insert_chunks-Keeps :
    (new rows rows' : List Chunk) (c : Chunk)
    → insert_chunks new rows ≡ returns rows'
    → In c rows
    → In c rows'
unfolding insert_chunks
insert_chunks-Keeps [] rows rows' c h i = let same : rows ≡ rows' = cc h in subst (In c) same i
insert_chunks-Keeps (new ∷ more) rows rows' c h i =
    insert_chunks-Keeps more (new ∷ rows) rows' c ((insert_chunks-step new more rows rows' h).1)
      (inr i)

insert_chunks-adds :
    (new rows rows' : List Chunk) (c : Chunk)
    → insert_chunks new rows ≡ returns rows'
    → In c new
    → In c rows'
insert_chunks-adds [] rows rows' c h i = elim i [ ]
insert_chunks-adds (new ∷ more) rows rows' c h i =
    let rest = (insert_chunks-step new more rows rows' h).1 in
    elim i [
      | inl e ↦ insert_chunks-Keeps more (new ∷ rows) rows' c rest (inl e)
      | inr j ↦ insert_chunks-adds more (new ∷ rows) rows' c rest j
    ]

insert_chunks-In :
    (new rows rows' : List Chunk) (c : Chunk)
    → insert_chunks new rows ≡ returns rows'
    → In c rows'
    → In c new ⊎ In c rows
unfolding insert_chunks
insert_chunks-In [] rows rows' c h i = let same : rows' ≡ rows = cc h in inr (subst (In c) same i)
insert_chunks-In (new ∷ more) rows rows' c h i =
    elim (insert_chunks-In more (new ∷ rows) rows' c ((insert_chunks-step new more rows rows' h).1)
      i) [ inl j ↦ inl (inr j) | inr (inl e) ↦ inl (inl e) | inr (inr j) ↦ inr j ]

module _ (l : N.Libraries) (fresh : ℕ → ℕ) (now : ℕ) (d : Document) where
  -- The row of a parsed passage, with the id that was fresh for it.
  abbrev pub IsRowOf : ParsedChunk → Chunk → Type 0
  IsRowOf p c = (n : ℕ) × (c ≡ chunk_of l (fresh n) now d p)

  chunks_of_complete :
      (n : ℕ) (ps : List ParsedChunk) (p : ParsedChunk)
      → In p ps
      → (c : Chunk) × In c (chunks_of l fresh n now d ps) × IsRowOf p c
  unfolding chunks_of
  chunks_of_complete n [] p i = elim i [ ]
  chunks_of_complete n (q ∷ ps) p (inl e) =
      (chunk_of l (fresh n) now d q, inl refl, (n, ap (chunk_of l (fresh n) now d) (sym e)))
  chunks_of_complete n (q ∷ ps) p (inr i) =
      let (c, j, k) = chunks_of_complete (suc n) ps p i in (c, inr j, k)

  chunks_of-IsRowOf :
      (n : ℕ) (ps : List ParsedChunk) (c : Chunk)
      → In c (chunks_of l fresh n now d ps)
      → (p : ParsedChunk) × In p ps × IsRowOf p c
  unfolding chunks_of
  chunks_of-IsRowOf n [] c i = elim i [ ]
  chunks_of-IsRowOf n (p ∷ ps) c (inl e) = (p, inl refl, (n, e))
  chunks_of-IsRowOf n (p ∷ ps) c (inr i) =
      let (q, j, r) = chunks_of-IsRowOf (suc n) ps c i in (q, inr j, r)

  module _ {F : Type 0} (ps : List ParsedChunk) (db db' : Db F) where
    -- A replacement that returns has inserted its rows, and changed the chunks table alone.
    replace_chunks-returns :
        replace_chunks l fresh now d ps db ≡ returns db'
        → (rows : List Chunk) × (insert_chunks
              (chunks_of l fresh 0 now d ps)
              (select (λ (c : Chunk). not (c.document_id == d.id)) db.chunks)
            ≡ returns rows)
          × (record db { chunks = rows } ≡ db')
    unfolding replace_chunks
    replace_chunks-returns h =
        by_rows
          (insert_chunks (chunks_of l fresh 0 now d ps)
            (select (λ (c : Chunk). not (c.document_id == d.id)) db.chunks))
          refl h
      where
        by_rows :
            (r : Result (List Chunk))
            → insert_chunks
                (chunks_of l fresh 0 now d ps)
                (select (λ (c : Chunk). not (c.document_id == d.id)) db.chunks)
              ≡ r
            → with_chunks db r ≡ returns db'
            → (rows : List Chunk) × (insert_chunks
                  (chunks_of l fresh 0 now d ps)
                  (select (λ (c : Chunk). not (c.document_id == d.id)) db.chunks)
                ≡ returns rows)
              × (record db { chunks = rows } ≡ db')
        by_rows (raises e) r k = cc k
        by_rows (returns rows) r k = (rows, r, cc k)

    -- The rows of every parsed passage are stored.
    pub replace_chunks-stores :
        (p : ParsedChunk)
        → replace_chunks l fresh now d ps db ≡ returns db'
        → In p ps
        → (c : Chunk) × In c db'.chunks × IsRowOf p c
    replace_chunks-stores p h i =
        let (rows, inserted, same) = replace_chunks-returns h in
        let (c, j, k) = chunks_of_complete 0 ps p i in
        (
          c,
          subst (λ (x : Db F). In c x.chunks) same
              (insert_chunks-adds (chunks_of l fresh 0 now d ps)
                (select (λ (c : Chunk). not (c.document_id == d.id)) db.chunks) rows c inserted j),
          k,
        )

    pub replace_chunks-IsKeyed :
        replace_chunks l fresh now d ps db ≡ returns db' → IsKeyed db → IsKeyed db'
    replace_chunks-IsKeyed h k =
        let (rows, inserted, same) = replace_chunks-returns h in
        let (ids, sources) =
          insert_chunks-IsKeyedTable (chunks_of l fresh 0 now d ps)
            (select (λ (c : Chunk). not (c.document_id == d.id)) db.chunks) rows inserted
            (
              Pairs-select (λ a b. b.id ≢ a.id) (λ (c : Chunk). not (c.document_id == d.id))
                  db.chunks k.chunk_ids,
              Pairs-select (λ a b. b.tenant_id ≡ a.tenant_id → b.source_id ≢ a.source_id)
                  (λ (c : Chunk). not (c.document_id == d.id)) db.chunks k.source_ids,
            ) in
        subst IsKeyed same
          (record { document_ids = k.document_ids; chunk_ids = ids; source_ids = sources })

    -- The other tables stay as they are.
    pub replace_chunks-documents :
        replace_chunks l fresh now d ps db ≡ returns db' → db.documents ≡ db'.documents
    replace_chunks-documents h =
        let (rows, inserted, same) = replace_chunks-returns h in ap (λ (x : Db F). x.documents) same

    pub replace_chunks-jobs : replace_chunks l fresh now d ps db ≡ returns db' → db.jobs ≡ db'.jobs
    replace_chunks-jobs h =
        let (rows, inserted, same) = replace_chunks-returns h in ap (λ (x : Db F). x.jobs) same

    -- A stored row is one of a parsed passage, or an old one of another document.
    pub replace_chunks-In :
        (c : Chunk)
        → replace_chunks l fresh now d ps db ≡ returns db'
        → In c db'.chunks
        → ((p : ParsedChunk) × In p ps × IsRowOf p c) ⊎ ((c.document_id ≢ d.id) × In c db.chunks)
    replace_chunks-In c h i =
        let (rows, inserted, same) = replace_chunks-returns h in
        elim (insert_chunks-In (chunks_of l fresh 0 now d ps)
          (select (λ (c : Chunk). not (c.document_id == d.id)) db.chunks) rows c inserted
          (subst (λ (x : Db F). In c x.chunks) (sym same) i)) [
            | inl j ↦ inl (chunks_of-IsRowOf 0 ps c j)
            | inr j ↦
                let (k, t) = In-select (λ (c : Chunk). not (c.document_id == d.id)) db.chunks c j in
                inr ((λ e. ground arith), k)
          ]

    -- The rows of other documents stay.
    pub replace_chunks-others :
        (c : Chunk)
        → replace_chunks l fresh now d ps db ≡ returns db'
        → c.document_id ≢ d.id
        → In c db.chunks
        → In c db'.chunks
    replace_chunks-others c h other i =
        let (rows, inserted, same) = replace_chunks-returns h in
        subst (λ (x : Db F). In c x.chunks) same
          (insert_chunks-Keeps (chunks_of l fresh 0 now d ps)
            (select (λ (c : Chunk). not (c.document_id == d.id)) db.chunks) rows c inserted
            (In-select_intro (λ (c : Chunk). not (c.document_id == d.id)) db.chunks c i
              (ground arith)))
