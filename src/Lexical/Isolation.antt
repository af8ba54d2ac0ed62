-- ===== src/Lexical/Isolation.antt =====
-- `search` and `resolve_source` of app/services/lexical.py: which rows they show.
use document_intelligence_mv.Prelude.{
  ℕ, ◌≤◌, ◌≡◌, ◌⊎◌, refl, Bool, true, Option, none, some, List, [], ◌∷◌, Text, strip, is_empty,
  first, length, length-take-le, sort_by, sort_by-All, All, All-append, All-take, first-All, In,
  In-append_left, In-append_right, Bool-cases, inl, inr, arith, nat_eq, text_eq, has_part,
}
use document_intelligence_mv.Floats.{Floats}
use document_intelligence_mv.Models.{Document, Chunk}
use document_intelligence_mv.Database.{Db}
use document_intelligence_mv.Lexical.{
  LexicalHit, TextSearch, hit_of, in_documents, is_match, join_chunk, join, comes_before, search,
  is_source, resolve_source,
}

-- A row that stands in the join, of a chunk and its live document.
pub record Quotes {F : Type 0} (db : Db F) (tenant : ℕ) (h : LexicalHit F) : Type 0 where
  pub chunk : Chunk
  pub document : Document
  pub chunk_stored : In chunk db.chunks
  pub document_stored : In document db.documents
  pub of_tenant : chunk.tenant_id ≡ tenant
  pub of_document : document.id ≡ chunk.document_id
  pub live : document.deleted_at ≡ none
  pub same : h ≡ hit_of chunk document h.rank

module _ {F : Type 0} (p : Chunk → Document → Bool) (rank : Chunk → Document → F) where
  -- What holds of every row that passes the test holds of the whole join.
  module _ (P : LexicalHit F → Type 0) (documents : List Document) (chunks : List Chunk)
      (h : (c : Chunk) (d : Document)
        → In c chunks
        → In d documents
        → p c d ≡ true
        → P (hit_of c d (rank c d))) where
    join_chunk-All :
        (c : Chunk) (ds : List Document)
        → In c chunks
        → ((d : Document) → In d ds → In d documents)
        → All P (join_chunk p rank c ds)
    unfolding join_chunk
    join_chunk-All c [] i sub = tt
    join_chunk-All c (d ∷ ds) i sub = elim (Bool-cases (p c d)) [
      | inl t ↦
          rw (join_chunk, t)
            (h c d i (sub d (inl refl)) t, join_chunk-All c ds i (λ x k. sub x (inr k)))
      | inr t ↦ rw (join_chunk, t) (join_chunk-All c ds i (λ x k. sub x (inr k)))
    ]

    join-All :
        (cs : List Chunk) → ((c : Chunk) → In c cs → In c chunks) → All P (join p rank documents cs)
    unfolding join
    join-All [] sub = tt
    join-All (c ∷ cs) sub =
        All-append P (join_chunk p rank c documents) (join p rank documents cs)
          (join_chunk-All c documents (sub c (inl refl)) (λ d k. k))
          (join-All cs (λ x k. sub x (inr k)))

  -- A pair of rows that passes the test stands in the join.
  join_chunk_complete :
      (c : Chunk) (d : Document) (ds : List Document)
      → In d ds
      → p c d ≡ true
      → In (hit_of c d (rank c d)) (join_chunk p rank c ds)
  unfolding join_chunk
  join_chunk_complete c d [] i t = elim i [ ]
  join_chunk_complete c d (x ∷ ds) (inl e) t = rw (join_chunk, ← e, t) (inl refl)
  join_chunk_complete c d (x ∷ ds) (inr i) t = elim (Bool-cases (p c x)) [
    | inl k ↦ rw (join_chunk, k) (inr (join_chunk_complete c d ds i t))
    | inr k ↦ rw (join_chunk, k) (join_chunk_complete c d ds i t)
  ]

  join_complete :
      (c : Chunk) (d : Document) (ds : List Document) (cs : List Chunk)
      → In c cs
      → In d ds
      → p c d ≡ true
      → In (hit_of c d (rank c d)) (join p rank ds cs)
  unfolding join
  join_complete c d ds [] i j t = elim i [ ]
  join_complete c d ds (x ∷ cs) (inl e) j t =
      In-append_left (hit_of c d (rank c d)) (join_chunk p rank x ds) (join p rank ds cs)
        (rw (← e) (join_chunk_complete c d ds j t))
  join_complete c d ds (x ∷ cs) (inr i) j t =
      In-append_right (hit_of c d (rank c d)) (join_chunk p rank x ds) (join p rank ds cs)
        (join_complete c d ds cs i j t)

pub first-In : {A : Type 0} (xs : List A) (a : A) → In a xs → (b : A) × (first xs ≡ some b)
first-In [] a i = elim i [ ]
first-In (x ∷ xs) a i = (x, refl)

module _ (𝓕 : Floats) (db : Db 𝓕.Float) (tenant : ℕ) where
  -- What a hit of a literal search has: a stored passage of the tenant, of one of the documents that the
  -- caller named, that matches the query.
  abbrev pub Matches : TextSearch 𝓕.Float → Text → Option (List ℕ) → LexicalHit 𝓕.Float → Type 0
  Matches t query document_ids h =
      Quotes db tenant h
      × (in_documents document_ids h.document_id ≡ true)
      × ((t.matches_tokens query h.text ≡ true) ⊎ (has_part h.text query ≡ true))

  -- Every hit of a literal search is a stored chunk of the caller's tenant and of a live document, one of those
  -- named if any are; its text matches the stripped query by tokens or contains it; and there are at
  -- most `limit` hits.
  pub search-Matches :
      (t : TextSearch 𝓕.Float) (raw : Text) (limit : ℕ) (document_ids : Option (List ℕ))
      → All (Matches t (strip raw) document_ids) (search 𝓕 t db tenant raw limit document_ids)
        × (length (search 𝓕 t db tenant raw limit document_ids) ≤ limit)
  unfolding search
  search-Matches t raw limit document_ids = elim (Bool-cases (is_empty (strip raw))) [
    | inl k ↦ rw k (tt, omega arith)
    | inr k ↦ rw k (
      All-take (Matches t (strip raw) document_ids) limit ranked (
          sort_by-All (comes_before 𝓕 t) (Matches t (strip raw) document_ids) rows (
            join-All (is_match t tenant (strip raw) document_ids) (λ c d. t.rank (strip raw) c.text)
              (Matches t (strip raw) document_ids) db.documents db.chunks row db.chunks
              (λ c i. i))),
      length-take-le limit ranked,
    )
  ]
    where
      rows : List (LexicalHit 𝓕.Float)
      rows =
          join (is_match t tenant (strip raw) document_ids) (λ c d. t.rank (strip raw) c.text)
            db.documents db.chunks

      ranked : List (LexicalHit 𝓕.Float)
      ranked = sort_by (comes_before 𝓕 t) rows

      row :
          (c : Chunk) (d : Document)
          → In c db.chunks
          → In d db.documents
          → is_match t tenant (strip raw) document_ids c d ≡ true
          → Matches t (strip raw) document_ids (hit_of c d (t.rank (strip raw) c.text))
      row c d i j k = (
        record {
          chunk = c;
          document = d;
          chunk_stored = i;
          document_stored = j;
          of_tenant = ground arith;
          of_document = ground arith;
          live = ground arith;
          same = refl;
        },
        ground arith,
        ground arith,
      )

  -- The passage that a citation resolves to is a stored chunk of the caller's tenant with the cited source
  -- id, in the cited document, which is live.
  pub resolve_source-Quotes :
      (document : ℕ) (source : Text) (h : LexicalHit 𝓕.Float)
      → resolve_source 𝓕 db tenant document source ≡ some h
      → Quotes db tenant h × (h.document_id ≡ document) × (h.source_id ≡ source)
  unfolding resolve_source
  resolve_source-Quotes document source h e =
      first-All Right
        (join (is_source 𝓕 tenant document source) (λ c d. 𝓕.one) db.documents db.chunks)
        (join-All (is_source 𝓕 tenant document source) (λ c d. 𝓕.one) Right db.documents db.chunks
          row db.chunks (λ c i. i))
        e
    where
      Right : LexicalHit 𝓕.Float → Type 0
      Right x = Quotes db tenant x × (x.document_id ≡ document) × (x.source_id ≡ source)

      row :
          (c : Chunk) (d : Document)
          → In c db.chunks
          → In d db.documents
          → is_source 𝓕 tenant document source c d ≡ true
          → Right (hit_of c d 𝓕.one)
      row c d i j k = (
        record {
          chunk = c;
          document = d;
          chunk_stored = i;
          document_stored = j;
          of_tenant = ground arith;
          of_document = ground arith;
          live = ground arith;
          same = refl;
        },
        ground arith,
        ground arith,
      )

  -- A stored chunk of a live document of its tenant is found by its source id.
  pub resolve_source_complete :
      (c : Chunk) (d : Document)
      → In c db.chunks
      → In d db.documents
      → c.tenant_id ≡ tenant
      → d.id ≡ c.document_id
      → d.deleted_at ≡ none
      → (h : LexicalHit 𝓕.Float) × (resolve_source 𝓕 db tenant c.document_id c.source_id ≡ some h)
  unfolding resolve_source
  resolve_source_complete c d i j of_tenant of_document live =
      first-In
        (join (is_source 𝓕 tenant c.document_id c.source_id) (λ x y. 𝓕.one) db.documents db.chunks)
        (hit_of c d 𝓕.one)
        (join_complete (is_source 𝓕 tenant c.document_id c.source_id) (λ x y. 𝓕.one) c d
          db.documents db.chunks i j (ground arith))
