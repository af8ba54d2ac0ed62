-- ===== src/VectorStore/Search.antt =====
-- `search` of app/services/vector_store.py: which points it shows.
use document_intelligence_mv.Prelude.{
  ℕ, ◌≤◌, ◌≡◌, refl, ap, subst, Bool, true, false, Option, none, some, List, [], ◌∷◌, map, Text,
  length, length-map, All, In, In-map, All-of-In, All-In, inl, inr, ◌⊎◌, arith, nat_eq, text_eq,
  contains→In,
}
use document_intelligence_mv.Errors.{Error, returns, raises}
use document_intelligence_mv.Floats.{Floats}
use document_intelligence_mv.Actions.{pure, attempt-returns, bind-returns, ◌>>=◌}
use document_intelligence_mv.VectorStore.{
  Point, ScoredPoint, matches, Client, filter_of, collection_is_absent, scored_chunk, or_id, search,
  unless_absent,
}
use document_intelligence_mv.VectorStore.Laws.{IsQdrant}
use document_intelligence_mv.VectorStore.Index.{absent_lem}

module _ (𝓕 : Floats) {S : Type 0} (client : Client S 𝓕.Float) (q : IsQdrant client)
    (collection : Text) where
  -- The document is one of the named ones; without a list, or with an empty one, every document is.
  abbrev pub AmongNamed : Option (List ℕ) → ℕ → Type 0
  AmongNamed none d = Unit
  AmongNamed (some []) d = Unit
  AmongNamed (some (x ∷ xs)) d = In d (x ∷ xs)

  -- A hit of a search is a point of the tenant, of one of the named documents if any are named.
  abbrev pub IsHit : S → ℕ → Option (List ℕ) → ℕ × 𝓕.Float → Type 0
  IsHit s tenant documents hit =
      (p : Point 𝓕.Float) × In p (q.points s collection)
      × (p.payload.tenant_id ≡ tenant)
      × AmongNamed documents p.payload.document_id
      × ((p.payload.chunk_id ≡ some hit.0) ⊎ (p.id ≡ hit.0))

  search_of-IsHit :
      (tenant : ℕ) (documents : Option (List ℕ)) (p : Point 𝓕.Float)
      → matches (filter_of tenant documents) p.payload ≡ true
      → p.payload.tenant_id ≡ tenant
  unfolding filter_of
  search_of-IsHit tenant none p h = ground arith
  search_of-IsHit tenant (some []) p h = ground arith
  search_of-IsHit tenant (some (d ∷ ds)) p h = ground arith

  scored-IsHit :
      (s : S) (tenant : ℕ) (documents : Option (List ℕ)) (r : ScoredPoint 𝓕.Float)
      (p : Point 𝓕.Float)
      → In p (q.points s collection)
      → p.id ≡ r.id
      → r.payload ≡ some p.payload
      → matches (filter_of tenant documents) p.payload ≡ true
      → IsHit s tenant documents (scored_chunk 𝓕 r)
  unfolding filter_of
  scored-IsHit s tenant documents r p i e f m = (
    p,
    i,
    search_of-IsHit tenant documents p m,
    named_of documents m,
    rw f (named p.payload.chunk_id refl),
  )
    where
      named_of :
          (o : Option (List ℕ))
          → matches (filter_of tenant o) p.payload ≡ true
          → AmongNamed o p.payload.document_id
      named_of none h = tt
      named_of (some []) h = tt
      named_of (some (d ∷ ds)) h = contains→In p.payload.document_id (d ∷ ds) (ground arith)

      named :
          (o : Option ℕ)
          → p.payload.chunk_id ≡ o
          → (p.payload.chunk_id ≡ some (or_id r.id p.payload.chunk_id))
            ⊎ (p.id ≡ or_id r.id p.payload.chunk_id)
      named none k = inr (rw k e)
      named (some c) k = inl (rw k refl)

  -- For a client that keeps to what Qdrant documents, a search that returns gives at most `limit` points of the
  -- tenant, of the named documents if any are named, or it gives nothing and the collection is not
  -- there.
  pub search-IsHit :
      (tenant : ℕ) (vector : List 𝓕.Float) (limit : ℕ) (documents : Option (List ℕ)) (s s' : S)
      (hits : List (ℕ × 𝓕.Float))
      → search 𝓕 client collection tenant vector limit documents s ≡ (s', returns hits)
      → (All (IsHit s tenant documents) hits × (length hits ≤ limit))
        ⊎ ((hits ≡ []) × (q.exists s' collection ≡ false))
  unfolding search
  search-IsHit tenant vector limit documents s s' hits h = either (
      attempt-returns
        (client.query_points collection vector limit (filter_of tenant documents) >>= λ found.
          pure (map (scored_chunk 𝓕) found))
        (λ e. collection_is_absent client collection >>= unless_absent client collection []) s s'
        hits h)
    where
      queried :
          (client.query_points collection vector limit (filter_of tenant documents) >>= λ found.
          pure (map (scored_chunk 𝓕) found))
              s
            ≡ (s', returns hits)
          → All (IsHit s tenant documents) hits × (length hits ≤ limit)
      queried k =
          let (found, y, a, b) =
            bind-returns (client.query_points collection vector limit (filter_of tenant documents))
              (λ found. pure (map (scored_chunk 𝓕) found)) s s' hits k in
          let (few, each) =
            q.queried collection vector limit (filter_of tenant documents) s y found a in
          let same : map (scored_chunk 𝓕) found ≡ hits = cc b in
          rw (← same) (
            All-of-In (IsHit s tenant documents) (map (scored_chunk 𝓕) found) (λ x i.
                let (r, j, e) = In-map (scored_chunk 𝓕) x found i in
                let (p, stored, d, f, m) = All-In _ found each j in
                subst (IsHit s tenant documents) e
                  (scored-IsHit s tenant documents r p stored d f m)),
            rw (length-map (scored_chunk 𝓕) found) few,
          )

      either :
          ((client.query_points collection vector limit (filter_of tenant documents) >>= λ found.
          pure (map (scored_chunk 𝓕) found))
                s
              ≡ (s', returns hits))
            ⊎ ((e : Error) × (y : S) × ((client.query_points collection vector limit
                        (filter_of tenant documents)
                      >>= λ found. pure (map (scored_chunk 𝓕) found))
                    s
                  ≡ (y, raises e))
                × ((collection_is_absent client collection >>= unless_absent client collection []) y
                    ≡ (s', returns hits)))
          → (All (IsHit s tenant documents) hits × (length hits ≤ limit))
            ⊎ ((hits ≡ []) × (q.exists s' collection ≡ false))
      either (inl k) = inl (queried k)
      either (inr (e, y, k, m)) =
          let (b, z, a, u) =
            bind-returns (collection_is_absent client collection)
              (unless_absent client collection []) y s' hits m in
          absent b z a u
        where
          absent :
              (b : Bool) (z : S)
              → collection_is_absent client collection y ≡ (z, returns b)
              → unless_absent client collection [] b z ≡ (s', returns hits)
              → (All (IsHit s tenant documents) hits × (length hits ≤ limit))
                ⊎ ((hits ≡ []) × (q.exists s' collection ≡ false))
          absent true z a u =
              let (same, gone) = absent_lem client q collection y z a in
              let there : z ≡ s' = ap (λ w. w.0) u in inr (cc u, rw (← there, same) gone)
          absent false z a u = cc u
