-- ===== src/Tests/Found.antt =====
-- app/services/retrieval.py, lexical.py and qa.py on one document of one passage.
use document_intelligence_mv.Prelude.{
  ◌*◌, max, min, take, inl, ℕ, ◌≤◌, ◌≡◌, refl, true, false, Option, none, some, List, [], ◌∷◌, Text,
  codes, map, All, length, nat_eq, text_eq, option_eq, sort_by, strip,
}
use document_intelligence_mv.Errors.{◌>>=◌, Result, returns, raises, unexpected}
use document_intelligence_mv.Models.{Document, Chunk}
use document_intelligence_mv.Database.{Db, IsKeyed}
use document_intelligence_mv.Providers.{EmbeddingProvider, RerankerProvider, is_current_embedding}
use document_intelligence_mv.Retrieval.{SearchHit, RerankerSettings, hit_of, respond, search}
use document_intelligence_mv.Retrieval.Isolation.{Shows, search-Shows}
use document_intelligence_mv.Retrieval.Fallback.{search_fallback}
use document_intelligence_mv.Lexical as L
use document_intelligence_mv.Lexical.{LexicalHit, TextSearch, resolve_source}
use document_intelligence_mv.Lexical.Isolation.{
  Matches, Quotes, search-Matches, resolve_source-Quotes,
}
use document_intelligence_mv.Qa.{GroundedAnswer, AskResult, answered, ask, cited}
use document_intelligence_mv.Qa.Grounding.{Resolves, ask-Resolves}
use document_intelligence_mv.Tests.Samples.{percents, sample_document}

abbrev provider : EmbeddingProvider ℕ
provider = record {
  provider = codes "fake";
  model = codes "m";
  version = codes "1";
  dimensions = 3;
  embed = λ texts. returns (map (λ t. 1) texts);
}

abbrev indexed : Document
indexed = record sample_document {
  embedding_provider = some (codes "fake");
  embedding_model = some (codes "m");
  embedding_version = some (codes "1");
  embedding_dimensions = some 3;
}

abbrev passage : Chunk
passage = record {
  id = 5;
  tenant_id = 7;
  document_id = 70;
  ordinal = 0;
  text = codes "Net 30 days.";
  page_number = some 2;
  section_title = none;
  source_id = codes "70#0";
  source_metadata = [];
  created_at = 1;
}

abbrev db : Db ℕ
db = record {
  documents = indexed ∷ [];
  chunks = passage ∷ [];
  profiles = [];
  relations = [];
  jobs = [];
}

abbrev settings : RerankerSettings
settings = record { reranker_candidate_multiplier = 4; reranker_max_candidates = 50 }

-- A store that answers with a chunk of the tenant and with one that is nobody's.
abbrev nearest : ℕ → ℕ → ℕ → Option (List ℕ) → Result (List (ℕ × ℕ))
nearest tenant vector limit ids = returns ((9, 95) ∷ (5, 90) ∷ [])

abbrev hit : SearchHit ℕ
hit = hit_of passage indexed 90

search_runs :
    search percents settings nearest db provider none 7 (codes " days ") 4 none ≡ returns (hit ∷ [])
unfolding search strip respond is_current_embedding nat_eq text_eq option_eq sort_by
search_runs = refl

-- A reranker that always raises.
abbrev broken : RerankerProvider ℕ
broken = record { rerank = λ query texts. raises unexpected }

search_fallback_example :
    search percents settings nearest db provider (some broken) 7 (codes " days ") 4 none ≡ (
      search percents settings nearest db provider none 7
        (codes " days ")
        (max 4 (min (4 * 4) 50))
        none
      >>= λ hits. returns (take 4 hits))
search_fallback_example =
    search_fallback percents db provider 7 settings nearest broken (codes " days ") 4 none
      (λ texts. inl (unexpected, refl))

search-Shows_example : All (Shows db provider 7) (hit ∷ []) × (length (hit ∷ []) ≤ 4)
search-Shows_example =
    search-Shows percents db provider 7 settings nearest none (codes " days ") 4 none (hit ∷ [])
      search_runs

-- Tokens match nothing here, so that the part of a text is what is found.
abbrev plain_search : TextSearch ℕ
plain_search = record { matches_tokens = λ q t. false; rank = λ q t. 1; filename_le = λ a b. true }

search-Matches_example :
    All
      (Matches percents db 7 plain_search (strip (codes " 30 ")) none)
      (L.search percents plain_search db 7 (codes " 30 ") 4 none)
    × (length (L.search percents plain_search db 7 (codes " 30 ") 4 none) ≤ 4)
search-Matches_example = search-Matches percents db 7 plain_search (codes " 30 ") 4 none

abbrev quoted : LexicalHit ℕ
quoted = L.hit_of passage indexed 100

resolve_runs : resolve_source percents db 7 70 (codes "70#0") ≡ some quoted
unfolding resolve_source nat_eq text_eq
resolve_runs = refl

resolve_source-Quotes_example :
    Quotes db 7 quoted × (quoted.document_id ≡ 70) × (quoted.source_id ≡ codes "70#0")
resolve_source-Quotes_example =
    resolve_source-Quotes percents db 7 70 (codes "70#0") quoted resolve_runs

-- A model that names one passage that it was given, and one that it was not.
abbrev reply : GroundedAnswer
reply = record {
  answer = codes "30 days";
  source_ids = codes "70#0" ∷ codes "71#3" ∷ [];
  has_sufficient_evidence = true;
  conflicting = false;
}

abbrev llm : Text → Result GroundedAnswer
llm prompt = returns reply

abbrev result : AskResult ℕ
result = answered (hit ∷ []) reply

db-IsKeyed : IsKeyed db
db-IsKeyed = record { document_ids = (tt, tt); chunk_ids = (tt, tt); source_ids = (tt, tt) }

ask_runs :
    ask percents settings nearest llm db provider none 7 (codes " days ") 4 none ≡ returns result
unfolding ask search strip respond is_current_embedding nat_eq text_eq option_eq sort_by
ask_runs = refl

cites_one : cited (hit ∷ []) reply.source_ids ≡ hit ∷ []
unfolding cited text_eq
cites_one = refl

ask-Resolves_example :
    All (λ h. Shows db provider 7 h × Resolves percents db provider 7 h) result.sources
ask-Resolves_example =
    ask-Resolves percents db provider 7 settings nearest llm none (codes " days ") 4 none result
      db-IsKeyed ask_runs
