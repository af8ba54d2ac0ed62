-- ===== src/Relations/Gathering/Found.antt =====
-- `gather_candidates` of app/services/relations.py: which documents are compared.
use document_intelligence_mv.Prelude.{
  ℕ, ◌≡◌, ◌≢◌, ◌∙◌, ◌⊎◌, refl, sym, ap, Bool, true, false, Option, none, some, List, [], ◌∷◌, map,
  Text, is_empty, select, first, contains, ◌==◌, nat_eq, text_eq, In, In-append_left,
  In-append_right, In-select_intro, In-map_intro, Bool-cases, inl, inr, arith, In→contains,
}
use document_intelligence_mv.Errors.{Result, returns}
use document_intelligence_mv.Models.{Document, DocumentProfile}
use document_intelligence_mv.Database.{Db}
use document_intelligence_mv.Relations.{Candidate}
use document_intelligence_mv.Retrieval.{last_score}
use document_intelligence_mv.Relations.Gathering.{
  is_profile_of, is_hash_match, truthy_same, with_profiles, outer_join, is_wanted, candidate_of,
  candidate_ids, compare_with,
}

with_profiles_filled :
    (d : Document) (ps : List DocumentProfile)
    → (row : Document × Option DocumentProfile) × In row (with_profiles d ps) × (row.0 ≡ d)
with_profiles_filled d [] = ((d, none), inl refl, refl)
with_profiles_filled d (p ∷ ps) = ((d, some p), inl refl, refl)

module _ (wanted : Document → Bool) (profiles : List DocumentProfile) where
  outer_join_complete :
      (ds : List Document) (d : Document)
      → In d ds
      → wanted d ≡ true
      → (row : Document × Option DocumentProfile) × In row (outer_join wanted ds profiles)
        × (row.0 ≡ d)
  unfolding outer_join
  outer_join_complete [] d i t = elim i [ ]
  outer_join_complete (x ∷ ds) d (inl e) t =
      let (row, i, p) = with_profiles_filled x (select (is_profile_of x.tenant_id x.id) profiles) in
      let w : wanted x ≡ true = (ap wanted (sym e)) ∙ t in
      (
        row,
        rw (outer_join, w)
            (In-append_left row (with_profiles x (select (is_profile_of x.tenant_id x.id) profiles))
              (outer_join wanted ds profiles) i),
        p ∙ sym e,
      )
  outer_join_complete (x ∷ ds) d (inr i) t =
      let (row, j, p) = outer_join_complete ds d i t in
      elim (Bool-cases (wanted x)) [
        | inl w ↦ (
          row,
          rw (outer_join, w)
              (In-append_right row
                (with_profiles x (select (is_profile_of x.tenant_id x.id) profiles))
                (outer_join wanted ds profiles) j),
          p,
        )
        | inr w ↦ (row, rw (outer_join, w) j, p)
      ]

-- What the vector store has answered: nothing without a vector, which is not asked for then; otherwise the
-- documents that are similar to the vector, of the tenant, but for the document itself.
pub data Answers {F V : Type 0} (similar : ℕ → V → ℕ → ℕ → Result (List (ℕ × F)))
    (limit tenant document : ℕ) : Option V → List (ℕ × F) → Type 0 where
  no_vector : Answers similar limit tenant document none []
  asked :
      (v : V) (similarities : List (ℕ × F))
      → similar tenant v limit document ≡ returns similarities
      → Answers similar limit tenant document (some v) similarities

-- A candidate is a live document of the tenant, that the vector store has listed or whose bytes or text are
-- the document's; what is said of hashes and the similarity is so.
pub record Compared {F : Type 0} (db : Db F) (tenant : ℕ) (document : Document)
    (similarities : List (ℕ × F)) (c : Candidate F) : Type 0 where
  pub other : Document
  pub stored : In other db.documents
  pub id : c.document_id ≡ other.id
  pub of_tenant : other.tenant_id ≡ tenant
  pub live : other.deleted_at ≡ none
  pub near : c.similarity ≡ last_score similarities other.id
  pub bytes : c.same_file_hash ≡ (other.file_hash == document.file_hash)
  pub listed :
      In other.id (map (λ s. s.0) similarities)
      ⊎ ((d : Document) × (d.id ≡ other.id)
          × (d.tenant_id ≡ tenant)
          × (d.id ≢ document.id)
          × ((d.file_hash ≡ document.file_hash) ⊎ (d.content_hash ≡ document.content_hash)))

module _ {F : Type 0} (lower : Text → Text) (db : Db F) (tenant : ℕ) (document : Document)
    (similarities : List (ℕ × F)) where
  -- A document of the same bytes or text is compared, whatever the vector store lists, and the comparison of
  -- the hashes is theirs.
  pub compare_with_matched :
      (d : Document)
      → In d db.documents
      → is_hash_match tenant document d ≡ true
      → (c : Candidate F) × In c (compare_with lower db tenant document similarities)
        × (c.document_id ≡ d.id)
        × (c.same_file_hash ≡ (d.file_hash == document.file_hash))
        × (c.same_content_hash ≡ truthy_same d.content_hash document.content_hash)
  compare_with_matched d i matched =
      let known : In d.id ids =
        In-append_right d.id (map (λ s. s.0) similarities)
          (map (λ (x : Document). x.id) (select (is_hash_match tenant document) db.documents))
          (In-map_intro (λ (x : Document). x.id) d
            (select (is_hash_match tenant document) db.documents)
            (In-select_intro (is_hash_match tenant document) db.documents d i matched)) in
      let wanted : is_wanted tenant ids d ≡ true = is_wanted_row (In→contains d.id ids known) in
      let (row, j, e) =
        outer_join_complete (is_wanted tenant ids) db.profiles db.documents d i wanted in
      (
        of_row row,
        rw (filled ids known) (In-map_intro of_row row _ j),
        ap (λ (x : Document). x.id) e,
        ap (λ (x : Document). x.file_hash == document.file_hash) e,
        ap (λ (x : Document). truthy_same x.content_hash document.content_hash) e,
      )
    where
      ids : List ℕ
      ids = candidate_ids lower db tenant document similarities

      of_row : Document × Option DocumentProfile → Candidate F
      of_row =
          candidate_of lower document
            (first (select (is_profile_of tenant document.id) db.profiles)) similarities

      is_wanted_row : contains ids d.id ≡ true → is_wanted tenant ids d ≡ true
      is_wanted_row k = ground arith

      filled : (xs : List ℕ) → In d.id xs → is_empty xs ≡ false
      filled [] k = elim k [ ]
      filled (x ∷ xs) k = refl
