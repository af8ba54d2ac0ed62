-- ===== src/Providers.antt =====
-- app/providers/base.py and app/services/indexing.py (`is_current_embedding`): the providers that the
-- services call. What they compute is outside of the repository, and so a parameter.
use document_intelligence_mv.Prelude.{
  ℕ, Bool, true, ◌&&◌, ◌==◌, Option, none, some, List, Text, nat_eq, text_eq, option_eq,
}
use document_intelligence_mv.Errors.{Result}
use document_intelligence_mv.Models.{Document}

-- EmbeddingProvider, over a type of vectors; `embed` may raise.
pub record EmbeddingProvider (V : Type 0) : Type 0 where
  pub provider : Text
  pub model : Text
  pub version : Text
  pub dimensions : ℕ
  pub embed : List Text → Result (List V)

-- RerankerProvider: a score for each passage, or an exception.
pub record RerankerProvider (F : Type 0) : Type 0 where
  pub rerank : Text → List Text → Result (List F)

abbrev pub same_width : Option ℕ → ℕ → Bool
same_width none n = true
same_width (some m) n = m == n

unfoldable pub is_current_embedding : {V : Type 0} → Document → EmbeddingProvider V → Bool
is_current_embedding d e =
    d.embedding_provider == some e.provider
    && (d.embedding_model == some e.model
        && (d.embedding_version == some e.version
            && same_width d.embedding_dimensions e.dimensions))
