-- ===== src/Relations/Gathering.antt =====
-- `gather_candidates` of app/services/relations.py: the tenant's documents that are worth comparing. The
-- vector store is the parameter `similar`.
pub mod Found
pub mod Blank
use document_intelligence_mv.Prelude.{
  ℕ, ◌≡◌, ◌≢◌, ◌∙◌, ◌⊎◌, refl, sym, ap, Bool, true, false, not, ◌&&◌, ◌||◌, Option, none, some,
  List, [], ◌∷◌, ◌++◌, map, Text, is_empty, select, first, contains, ◌==◌, nat_eq, text_eq,
  if◌then◌else◌, All, All-append, In, In-select, In-map, In-append, In-append_left, In-append_right,
  In-select_intro, In-map_intro, Bool-cases, Option-cases, inl, inr, arith, contains→In,
  In→contains, All-of-In, eq_of_==,
}
use document_intelligence_mv.Errors.{Result, returns, raises, ◌>>=◌, >>=-returns}
use document_intelligence_mv.Models.{Document, DocumentProfile, is_live_document}
use document_intelligence_mv.Database.{Db}
use document_intelligence_mv.Relations.{Candidate, overlap}
use document_intelligence_mv.Retrieval.{last_score}

abbrev pub is_document : ℕ → ℕ → Document → Bool
is_document tenant id d = d.id == id && (d.tenant_id == tenant && is_live_document d)

abbrev pub is_profile_of : ℕ → ℕ → DocumentProfile → Bool
is_profile_of tenant id p = p.tenant_id == tenant && p.document_id == id

-- `content_hash == … & content_hash IS NOT NULL`
abbrev pub same_content : Option Text → Option Text → Bool
same_content none hash = false
same_content (some h) none = false
same_content (some h) (some k) = h == k

-- `bool(document.content_hash and other.content_hash == document.content_hash)`
abbrev pub truthy_same : Option Text → Option Text → Bool
truthy_same other none = false
truthy_same none (some h) = false
truthy_same (some k) (some h) = not (is_empty h) && k == h

abbrev pub is_hash_match : ℕ → Document → Document → Bool
is_hash_match tenant document d =
    d.tenant_id == tenant
    && (not (d.id == document.id)
        && (is_live_document d
            && (d.file_hash == document.file_hash
                || same_content d.content_hash document.content_hash)))

-- A list of a profile that there may be none of.
abbrev pub listed : Option DocumentProfile → (DocumentProfile → List Text) → List Text
listed none part = []
listed (some p) part = part p

-- The rows of one document in the outer join.
abbrev pub with_profiles :
    Document → List DocumentProfile → List (Document × Option DocumentProfile)
with_profiles d [] = (d, none) ∷ []
with_profiles d (p ∷ ps) = map (λ q. (d, some q)) (p ∷ ps)

unfoldable pub outer_join :
    (Document → Bool)
    → List Document
    → List DocumentProfile
    → List (Document × Option DocumentProfile)
outer_join wanted [] profiles = []
outer_join wanted (d ∷ ds) profiles =
    let rest = outer_join wanted ds profiles in
    if wanted d
    then with_profiles d (select (is_profile_of d.tenant_id d.id) profiles) ++ rest
    else rest

abbrev pub is_wanted : ℕ → List ℕ → Document → Bool
is_wanted tenant ids d = d.tenant_id == tenant && (contains ids d.id && is_live_document d)

module _ {F : Type 0} (lower : Text → Text) where
  abbrev pub candidate_of :
      Document
      → Option DocumentProfile
      → List (ℕ × F)
      → Document × Option DocumentProfile
      → Candidate F
  candidate_of document profile similarities (other, other_profile) = record {
    document_id = other.id;
    similarity = last_score similarities other.id;
    same_file_hash = other.file_hash == document.file_hash;
    same_content_hash = truthy_same other.content_hash document.content_hash;
    shared_identifiers =
        overlap lower (listed profile (λ p. p.identifiers))
          (listed other_profile (λ p. p.identifiers));
    shared_organizations =
        overlap lower (listed profile (λ p. p.organizations))
          (listed other_profile (λ p. p.organizations));
    shared_persons =
        overlap lower (listed profile (λ p. p.persons)) (listed other_profile (λ p. p.persons));
    shared_dates =
        overlap lower (listed profile (λ p. p.dates)) (listed other_profile (λ p. p.dates));
    shared_topics =
        overlap lower (listed profile (λ p. p.topics)) (listed other_profile (λ p. p.topics));
  }

  -- `set(similarities) | set(hash_matches)`
  abbrev pub candidate_ids : Db F → ℕ → Document → List (ℕ × F) → List ℕ
  candidate_ids db tenant document similarities =
      map (λ s. s.0) similarities
      ++ map (λ (d : Document). d.id) (select (is_hash_match tenant document) db.documents)

  abbrev pub compare_with : Db F → ℕ → Document → List (ℕ × F) → List (Candidate F)
  compare_with db tenant document similarities =
      let ids = candidate_ids db tenant document similarities in
      if is_empty ids
      then []
      else map
          (candidate_of document (first (select (is_profile_of tenant document.id) db.profiles))
            similarities)
          (outer_join (is_wanted tenant ids) db.documents db.profiles)

  -- `similar(tenant_id, vector, limit, exclude)` if there is a vector
  abbrev pub similarities_of :
      {V : Type 0}
      → (ℕ → V → ℕ → ℕ → Result (List (ℕ × F)))
      → ℕ
      → ℕ
      → ℕ
      → Option V
      → Result (List (ℕ × F))
  similarities_of similar tenant document limit none = returns []
  similarities_of similar tenant document limit (some v) = similar tenant v limit document

  abbrev pub gather_for :
      {V : Type 0}
      → (ℕ → V → ℕ → ℕ → Result (List (ℕ × F)))
      → ℕ
      → Db F
      → ℕ
      → Option V
      → Option Document
      → Result (List (Candidate F))
  gather_for similar limit db tenant vector none = returns []
  gather_for similar limit db tenant vector (some document) =
      similarities_of similar tenant document.id limit vector >>= λ similarities.
      returns (compare_with db tenant document similarities)

  unfoldable pub gather_candidates :
      {V : Type 0}
      → (ℕ → V → ℕ → ℕ → Result (List (ℕ × F)))
      → ℕ
      → Db F
      → ℕ
      → ℕ
      → Option V
      → Result (List (Candidate F))
  unfolding outer_join
  gather_candidates similar limit db tenant document vector =
      gather_for similar limit db tenant vector
        (first (select (is_document tenant document) db.documents))
