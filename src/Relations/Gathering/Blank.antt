-- ===== src/Relations/Gathering/Blank.antt =====
-- Documents without text: what app/services/processing.py records of them, what app/services/relations.py gathers
-- and decides by it.
use document_intelligence_mv.Prelude.{
  ℕ, ◌≡◌, ◌≢◌, refl, ap, ◌∙◌, true, false, none, some, List, [], Text, In, is_empty, ◌==◌, ==-refl,
  nat_eq, text_eq, arith,
}
use document_intelligence_mv.Models.{Document}
use document_intelligence_mv.Floats.{Floats}
use document_intelligence_mv.Database.{Db}
use document_intelligence_mv.Normalization as N
use document_intelligence_mv.Normalization.{normalize_text, content_hash}
use document_intelligence_mv.Relations.{Candidate, Settings, RelationType, Reason, classify}
use document_intelligence_mv.Relations.Gathering.{
  compare_with, is_hash_match, truthy_same, same_content,
}
use document_intelligence_mv.Relations.Gathering.Found.{compare_with_matched}

module _ (𝓕 : Floats) (l : N.Libraries) (lower : Text → Text) (db : Db 𝓕.Float) (tenant : ℕ)
    (document : Document) (similarities : List (ℕ × 𝓕.Float)) (s : Settings 𝓕.Float) where
  -- Two live documents of a tenant that differ in their bytes, each recorded with the hash of a text that normalizes to
  -- nothing: the one is gathered as a candidate of the other and is decided to be its content
  -- duplicate, with the highest score, if a digest is not empty.
  pub classify-blank :
      (d : Document) (text other_text : Text)
      → normalize_text l text ≡ []
      → normalize_text l other_text ≡ []
      → document.content_hash ≡ some (content_hash l text)
      → d.content_hash ≡ some (content_hash l other_text)
      → is_empty (l.sha256 []) ≡ false
      → In d db.documents
      → d.tenant_id ≡ tenant
      → d.id ≢ document.id
      → d.deleted_at ≡ none
      → d.file_hash ≢ document.file_hash
      → (c : Candidate 𝓕.Float) × In c (compare_with lower db tenant document similarities)
        × (c.document_id ≡ d.id)
        × (classify 𝓕 c s
            ≡ some (record {
              relation_type = RelationType.content_duplicate;
              score = some 𝓕.one;
              reason = Reason.content_hash;
            }))
  unfolding content_hash classify
  classify-blank d text other_text blank other_blank h k digest i t n live bytes =
      let (c, j, same_id, file, content) =
        compare_with_matched lower db tenant document similarities d i matched in
      let no_file : c.same_file_hash ≡ false = file ∙ differ in
      let has_content : c.same_content_hash ≡ true = content ∙ agree in
      (c, j, same_id, rw (no_file, has_content) refl)
    where
      differ : (d.file_hash == document.file_hash) ≡ false
      differ = ground arith

      agree : truthy_same d.content_hash document.content_hash ≡ true
      agree =
          rw
            (
              k ∙ ap (λ x. some (l.sha256 x)) other_blank,
              h ∙ ap (λ x. some (l.sha256 x)) blank,
              digest,
              ==-refl (l.sha256 []),
            )
            refl

      same_text : same_content d.content_hash document.content_hash ≡ true
      same_text =
          rw
            (
              k ∙ ap (λ x. some (l.sha256 x)) other_blank,
              h ∙ ap (λ x. some (l.sha256 x)) blank,
              ==-refl (l.sha256 []),
            )
            refl

      matched : is_hash_match tenant document d ≡ true
      matched = ground (arith, same_text)
