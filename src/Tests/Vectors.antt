-- ===== src/Tests/Vectors.antt =====
-- The vector index over a client that keeps one collection as a list of points.
use document_intelligence_mv.Prelude.{
  ℕ, ◌≡◌, ◌≢◌, ◌≤◌, refl, ap, sym, subst, All-select, Bool, true, false, not, ◌==◌, some, List, [],
  ◌∷◌, ◌++◌, map, Text, codes, contains, length, select, take, All, In, All-of-In, All-take,
  In-select, In-map, length-take-le, ◌⊎◌, nat_eq, text_eq, arith,
}
use document_intelligence_mv.Errors.{Result, returns, raises, unexpected}
use document_intelligence_mv.Actions.{Action, ◌>>=◌}
use document_intelligence_mv.VectorStore.{
  Point, ScoredPoint, Filter, matches, Client, point_of, upsert_chunks, search,
  collection_is_absent, filter_of, delete_document, delete_matching,
}
use document_intelligence_mv.VectorStore.Laws.{IsQdrant, entries_of, is_of}
use document_intelligence_mv.VectorStore.Index.{Implements, put, Fresh, upsert_chunks-Implements}
use document_intelligence_mv.VectorStore.Search.{IsHit, search-IsHit}
use document_intelligence_mv.Tests.Samples.{percents}

abbrev pub Points : Type 0
Points = List (Point ℕ)

abbrev is_here : Text → Bool
is_here c = c == codes "chunks"

abbrev points_at : Bool → Points → Points
points_at true s = s
points_at false s = []

abbrev delete_at : Bool → Filter → Action Points (Unit {0})
delete_at true f s = (select (λ p. not (matches f p.payload)) s, returns tt)
delete_at false f s = (s, raises unexpected)

abbrev upsert_at : Bool → List (Point ℕ) → Action Points (Unit {0})
upsert_at true ps s =
    (ps ++ select (λ q. not (contains (map (λ (p : Point ℕ). p.id) ps) q.id)) s, returns tt)
upsert_at false ps s = (s, raises unexpected)

abbrev scored : Point ℕ → ScoredPoint ℕ
scored p = record { id = p.id; payload = some p.payload; score = 90 }

abbrev query_at : Bool → ℕ → Filter → Action Points (List (ScoredPoint ℕ))
query_at true n f s = (s, returns (take n (map scored (select (λ p. matches f p.payload) s))))
query_at false n f s = (s, raises unexpected)

abbrev pub client : Client Points ℕ
client = record {
  get_collections = λ s. (s, returns (codes "chunks" ∷ []));
  get_collection = λ c s. (s, returns (some 2));
  create_collection = λ c n s. (s, returns tt);
  create_payload_index = λ c f s. (s, returns tt);
  upsert = λ c. upsert_at (is_here c);
  delete = λ c. delete_at (is_here c);
  query_points = λ c v. query_at (is_here c);
}

pub deleted_lem :
    (b : Bool) (f : Filter) (s s' : Points)
    → delete_at b f s ≡ (s', returns tt)
    → points_at b s' ≡ select (λ p. not (matches f p.payload)) (points_at b s)
deleted_lem true f s s' h = ap (λ x. x.0) (sym h)
deleted_lem false f s s' h = refl

pub upserted_lem :
    (b : Bool) (ps : List (Point ℕ)) (s s' : Points)
    → upsert_at b ps s ≡ (s', returns tt)
    → points_at b s'
      ≡ ps ++ select (λ q. not (contains (map (λ (p : Point ℕ). p.id) ps) q.id)) (points_at b s)
upserted_lem true ps s s' h = ap (λ x. x.0) (sym h)
upserted_lem false ps s s' h = cc h

abbrev IsFound : Bool → Filter → Points → ScoredPoint ℕ → Type 0
IsFound b f s r =
    (p : Point ℕ) × In p (points_at b s)
    × (p.id ≡ r.id)
    × (r.payload ≡ some p.payload)
    × (matches f p.payload ≡ true)

pub queried_lem :
    (b : Bool) (n : ℕ) (f : Filter) (s s' : Points) (found : List (ScoredPoint ℕ))
    → query_at b n f s ≡ (s', returns found)
    → (length found ≤ n) × All (IsFound b f s) found
queried_lem true n f s s' found h =
    let same : take n (map scored (select (λ p. matches f p.payload) s)) ≡ found = cc h in
    rw (← same) (
      length-take-le n (map scored (select (λ p. matches f p.payload) s)),
      All-take (IsFound true f s) n (map scored (select (λ p. matches f p.payload) s)) (
          All-of-In (IsFound true f s) (map scored (select (λ p. matches f p.payload) s)) (λ r i.
            let (p, j, e) = In-map scored r (select (λ p. matches f p.payload) s) i in
            let (k, m) = In-select (λ p. matches f p.payload) s p j in
            (
              p,
              k,
              ap (λ (x : ScoredPoint ℕ). x.id) e,
              ap (λ (x : ScoredPoint ℕ). x.payload) (sym e),
              m,
            ))),
    )
queried_lem false n f s s' found h = cc h

pub listed_lem :
    (s s' : Points) (names : List Text)
    → client.get_collections s ≡ (s', returns names)
    → (s' ≡ s) × ((c : Text) → contains names c ≡ is_here c)
listed_lem s s' names h =
    let same : (codes "chunks" ∷ []) ≡ names = cc h in
    (ap (λ x. x.0) (sym h), subst (λ xs. (c : Text) → contains xs c ≡ is_here c) same listed_one)
  where
    listed_one : (c : Text) → contains (codes "chunks" ∷ []) c ≡ is_here c
    listed_one c = ground arith

pub elsewhere_lem :
    (c other : Text) (f : Filter) (s s' : Points) (r : Result (Unit {0}))
    → delete_at (is_here c) f s ≡ (s', r)
    → other ≢ c
    → points_at (is_here other) s' ≡ points_at (is_here other) s
elsewhere_lem c other f s s' r h apart = by_place (is_here c) (is_here other) refl refl h
  where
    by_place :
        (b d : Bool)
        → is_here c ≡ b
        → is_here other ≡ d
        → delete_at b f s ≡ (s', r)
        → points_at d s' ≡ points_at d s
    by_place true true e k m = absurd (apart (ground arith))
    by_place true false e k m = refl
    by_place false d e k m = ap (λ x. points_at d x.0) (sym m)

abbrev pub client-IsQdrant : IsQdrant client
client-IsQdrant = record {
  points = λ s c. points_at (is_here c) s;
  exists = λ s c. is_here c;
  points_of_absent = λ s c h. rw h refl;
  listed = listed_lem;
  deleted = λ c. deleted_lem (is_here c);
  delete_failed = λ c f s s' e h. refl;
  deleted_elsewhere = elsewhere_lem;
  upserted = λ c. upserted_lem (is_here c);
  queried = λ c v. queried_lem (is_here c);
}

-- A chunk of document 70 is stored, and one of document 71.
abbrev point : ℕ → ℕ → Text → Point ℕ
point document id source = point_of client (codes "chunks") 7 document (id, 1 ∷ 0 ∷ [], source)

abbrev stored : Points
stored = point 70 1 (codes "70#0") ∷ point 71 2 (codes "71#0") ∷ []

abbrev entries : ℕ → ℕ → Points
entries t d = entries_of t d stored

-- Document 70 is indexed again, with one new chunk.
abbrev new_chunks : List (ℕ × List ℕ × Text)
new_chunks = (5, (0 ∷ 1 ∷ []), codes "70#1") ∷ []

abbrev reindexed : Points
reindexed =
    point_of client (codes "chunks") 7 70 (5, (0 ∷ 1 ∷ []), codes "70#1")
    ∷ point 71 2 (codes "71#0")
    ∷ []

upsert_runs : upsert_chunks client (codes "chunks") 7 70 new_chunks stored ≡ (reindexed, returns 1)
unfolding upsert_chunks delete_document delete_matching filter_of collection_is_absent nat_eq
    text_eq ◌>>=◌
upsert_runs = refl

ids_are_new : Fresh client client-IsQdrant (codes "chunks") entries 7 70 new_chunks
unfolding nat_eq
ids_are_new t d h =
    All-select (λ p. contains (5 ∷ []) p.id ≡ false) (is_of t d) stored (refl, (refl, tt))

entries_lem : Implements client client-IsQdrant (codes "chunks") entries stored
unfolding text_eq
entries_lem t d = refl

upsert_chunks-Implements_example :
    Implements client client-IsQdrant
      (codes "chunks")
      (put client client-IsQdrant
        (codes "chunks")
        entries
        7
        70
        (map (point_of client (codes "chunks") 7 70) new_chunks))
      reindexed
    × (1 ≡ length new_chunks)
upsert_chunks-Implements_example =
    upsert_chunks-Implements client client-IsQdrant (codes "chunks") entries 7 70 new_chunks stored
      reindexed 1 entries_lem ids_are_new upsert_runs

search_runs :
    search percents client (codes "chunks") 7 (0 ∷ 1 ∷ []) 4 (some (71 ∷ [])) stored
    ≡ (stored, returns ((2, 90) ∷ []))
unfolding search filter_of nat_eq text_eq ◌>>=◌
search_runs = refl

abbrev found : List (ℕ × ℕ)
found = (2, 90) ∷ []

search-IsHit_example :
    (All (IsHit percents client client-IsQdrant (codes "chunks") stored 7 (some (71 ∷ []))) found
      × (length found ≤ 4))
    ⊎ ((found ≡ []) × (client-IsQdrant.exists stored (codes "chunks") ≡ false))
search-IsHit_example =
    search-IsHit percents client client-IsQdrant (codes "chunks") 7 (0 ∷ 1 ∷ []) 4 (some (71 ∷ []))
      stored stored found search_runs
