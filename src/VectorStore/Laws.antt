-- ===== src/VectorStore/Laws.antt =====
-- The calls of Qdrant that app/services/vector_store.py makes, with what is documented of them.
use document_intelligence_mv.Prelude.{
  ℕ, ◌≤◌, ◌≡◌, ◌≢◌, refl, ap, Bool, true, false, not, ◌&&◌, ◌==◌, some, List, [], ◌∷◌, ◌++◌, map,
  Text, contains, length, select, All, In, arith, nat_eq, text_eq,
}
use document_intelligence_mv.Errors.{Error, Result, returns, raises}
use document_intelligence_mv.VectorStore.{Point, ScoredPoint, Filter, matches, Client, filter_of}

-- What Qdrant documents of the calls: a collection has points; a deletion by a filter that returns has removed
-- those that match and no other, one that raises has not removed the collection, and neither
-- changes another collection; an upsert that
-- returns has replaced the points of its ids; a query that returns gives points that match, at most as
-- many as asked for, and changes nothing; a list of the collections names those that there are.
pub record IsQdrant {S F : Type 0} (client : Client S F) : Type 1 where
  pub points : S → Text → List (Point F)
  pub exists : S → Text → Bool
  pub points_of_absent : (s : S) (c : Text) → exists s c ≡ false → points s c ≡ []
  pub listed :
      (s s' : S) (names : List Text)
      → client.get_collections s ≡ (s', returns names)
      → (s' ≡ s) × ((c : Text) → contains names c ≡ exists s c)
  pub deleted :
      (c : Text) (f : Filter) (s s' : S)
      → client.delete c f s ≡ (s', returns tt)
      → points s' c ≡ select (λ p. not (matches f p.payload)) (points s c)
  pub delete_failed :
      (c : Text) (f : Filter) (s s' : S) (e : Error)
      → client.delete c f s ≡ (s', raises e)
      → exists s' c ≡ exists s c
  pub deleted_elsewhere :
      (c other : Text) (f : Filter) (s s' : S) (r : Result (Unit {0}))
      → client.delete c f s ≡ (s', r)
      → other ≢ c
      → points s' other ≡ points s other
  pub upserted :
      (c : Text) (ps : List (Point F)) (s s' : S)
      → client.upsert c ps s ≡ (s', returns tt)
      → points s' c
        ≡ ps ++ select (λ q. not (contains (map (λ (p : Point F). p.id) ps) q.id)) (points s c)
  pub queried :
      (c : Text) (v : List F) (n : ℕ) (f : Filter) (s s' : S) (found : List (ScoredPoint F))
      → client.query_points c v n f s ≡ (s', returns found)
      → (length found ≤ n)
        × All
            (λ r.
              (p : Point F) × In p (points s c)
              × (p.id ≡ r.id)
              × (r.payload ≡ some p.payload)
              × (matches f p.payload ≡ true))
            found

abbrev pub is_of : {F : Type 0} → ℕ → ℕ → Point F → Bool
is_of tenant document p = p.payload.tenant_id == tenant && p.payload.document_id == document

-- The abstract index: what a tenant's document has in a collection.
abbrev pub entries_of : {F : Type 0} → ℕ → ℕ → List (Point F) → List (Point F)
entries_of tenant document ps = select (is_of tenant document) ps

pub filter_of-is_of :
    {F : Type 0} (tenant document : ℕ) (p : Point F)
    → matches (filter_of tenant (some (document ∷ []))) p.payload ≡ is_of tenant document p
unfolding filter_of
filter_of-is_of tenant document p = ground arith

module _ {F : Type 0} where
  pub append_nil : (xs : List (Point F)) → xs ++ [] ≡ xs
  append_nil [] = refl
  append_nil (x ∷ xs) = ap (λ ys. x ∷ ys) (append_nil xs)

  pub select-none :
      (p q : Point F → Bool) (xs : List (Point F))
      → ((x : Point F) → p x ≡ not (q x))
      → select q (select p xs) ≡ []
  select-none p q [] h = refl
  select-none p q (x ∷ xs) h = ground (arith, select-none p q xs h, h x)

  pub select-kept :
      (p q : Point F → Bool) (xs : List (Point F))
      → ((x : Point F) → q x ≡ true → p x ≡ true)
      → select q (select p xs) ≡ select q xs
  select-kept p q [] h = refl
  select-kept p q (x ∷ xs) h = ground (arith, select-kept p q xs h, h x)

  pub select-append :
      (q : Point F → Bool) (xs ys : List (Point F))
      → select q (xs ++ ys) ≡ select q xs ++ select q ys
  select-append q [] ys = refl
  select-append q (x ∷ xs) ys = ground (arith, select-append q xs ys)
