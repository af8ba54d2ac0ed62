-- ===== src/Qa.antt =====
-- app/services/qa.py: grounded question answering. The model's reply is the parameter `llm`; what is
-- only logged or traced (`_emit_retrieval`, the prompt's name and version) is left out.
pub mod Grounding
pub mod Answering
use document_intelligence_mv.Prelude.{
  ℕ, zero, suc, ◌+◌, ◌-◌, ◌/◌, ◌%◌, Bool, true, false, not, Option, none, some, List, [], ◌∷◌, ◌++◌,
  map, Text, codes, strip, is_empty, length, ◌==◌, text_eq, nat_eq, if◌then◌else◌, ltb, join_with,
}
use document_intelligence_mv.Errors.{Result, returns, raises, ◌>>=◌}
use document_intelligence_mv.Floats.{Floats}
use document_intelligence_mv.Database.{Db}
use document_intelligence_mv.Providers.{EmbeddingProvider, RerankerProvider}
use document_intelligence_mv.Retrieval.{SearchHit, RerankerSettings, search}

pub record GroundedAnswer : Type 0 where
  pub answer : Text
  pub source_ids : List Text
  pub has_sufficient_evidence : Bool
  pub conflicting : Bool

-- RetrievalTrace: a source with its rank for each hit.
pub record RetrievalSource (F : Type 0) : Type 0 where
  pub source_id : Text
  pub document_id : ℕ
  pub rank : ℕ
  pub score : F

pub record AskResult (F : Type 0) : Type 0 where
  pub answer : Text
  pub has_sufficient_evidence : Bool
  pub conflicting : Bool
  pub sources : List (SearchHit F)
  pub considered : ℕ
  pub invented : ℕ  -- the count that is logged
  pub retrieval : List (RetrievalSource F)

abbrev pub no_evidence : Text
no_evidence = codes "There is nothing in the available documents that answers this question."

-- `str(n)`, on fuel that a number's digits cannot use up.
unfoldable pub decimal_from : ℕ → ℕ → Text
decimal_from zero n = []
decimal_from (suc fuel) n =
    let rest = decimal_from fuel (n / 10) in
    if ltb n 10 then (48 + n) ∷ [] else rest ++ (48 + n % 10) ∷ []

unfoldable pub decimal : ℕ → Text
unfolding decimal_from
decimal n = decimal_from (suc n) n

-- A newline, as the code point that it is.
abbrev newline : Text
newline = 10 ∷ []

abbrev pub page_part : Option ℕ → List Text
page_part none = []
page_part (some n) = (codes "page " ++ decimal n) ∷ []

abbrev pub section_part : Option Text → List Text
section_part none = []
section_part (some s) = if is_empty s then [] else s ∷ []

abbrev pub where_part : List Text → Text
where_part [] = []
where_part (x ∷ xs) = codes " (" ++ (join_with (codes ", ") (x ∷ xs) ++ codes ")")

unfoldable pub block_of : {F : Type 0} → SearchHit F → Text
block_of h =
    codes "[source_id: "
    ++ (h.source_id
        ++ (codes "] "
            ++ (h.document_filename
                ++ (where_part (page_part h.page_number ++ section_part h.section_title)
                    ++ (newline ++ h.text)))))

unfoldable pub build_context : {F : Type 0} → List (SearchHit F) → Text
unfolding block_of
build_context hits = join_with (newline ++ newline) (map block_of hits)

-- `supplied[source_id]`, of the dict of the hits by their source id: the last hit of an id counts.
unfoldable pub supplied : {F : Type 0} → List (SearchHit F) → Text → Option (SearchHit F)
supplied [] s = none
supplied (h ∷ hits) s = elim (supplied hits s) [
  | some later ↦ some later
  | none ↦ if h.source_id == s then some h else none
]

-- Of the ids that the model names, those that were supplied, as the hits that they stand for.
unfoldable pub cited : {F : Type 0} → List (SearchHit F) → List Text → List (SearchHit F)
unfolding supplied
cited hits [] = []
cited hits (s ∷ ids) =
    let rest = cited hits ids in elim (supplied hits s) [ some h ↦ h ∷ rest | none ↦ rest ]

unfoldable pub retrieval_sources : {F : Type 0} → ℕ → List (SearchHit F) → List (RetrievalSource F)
retrieval_sources rank [] = []
retrieval_sources rank (h ∷ hits) =
    record { source_id = h.source_id; document_id = h.document_id; rank = rank; score = h.score }
    ∷ retrieval_sources (rank + 1) hits

abbrev pub nothing_found : {F : Type 0} → AskResult F
nothing_found = record {
  answer = no_evidence;
  has_sufficient_evidence = false;
  conflicting = false;
  sources = [];
  considered = 0;
  invented = 0;
  retrieval = [];
}

abbrev pub answered : {F : Type 0} → List (SearchHit F) → GroundedAnswer → AskResult F
answered hits reply = record {
  answer = reply.answer;
  has_sufficient_evidence = reply.has_sufficient_evidence;
  conflicting = reply.conflicting;
  sources = cited hits reply.source_ids;
  considered = length hits;
  invented = length reply.source_ids - length (cited hits reply.source_ids);
  retrieval = retrieval_sources 1 hits;
}

abbrev pub prompt_of : {F : Type 0} → List (SearchHit F) → Text → Text
prompt_of hits question =
    codes "Sources:"
    ++ (newline
        ++ (newline
            ++ (build_context hits ++ (newline ++ (newline ++ (codes "Question: " ++ question))))))

-- `llm.complete_structured(ASK_GROUNDED, user_prompt, GroundedAnswer)`
abbrev pub ask_about :
    {F : Type 0} → (Text → Result GroundedAnswer) → Text → List (SearchHit F) → Result (AskResult F)
ask_about llm question [] = returns nothing_found
ask_about llm question (h ∷ hits) = do
  reply ← llm (prompt_of (h ∷ hits) question)
  returns (answered (h ∷ hits) reply)

module _ (𝓕 : Floats) {V : Type 0} where
  open 𝓕 use {Float}

  unfoldable pub ask :
      RerankerSettings
      → (ℕ → V → ℕ → Option (List ℕ) → Result (List (ℕ × Float)))
      → (Text → Result GroundedAnswer)
      → Db Float
      → EmbeddingProvider V
      → Option (RerankerProvider Float)
      → ℕ
      → Text
      → ℕ
      → Option (List ℕ)
      → Result (AskResult Float)
  ask s nearest llm db e r tenant raw limit document_ids =
      let question = strip raw in
      if is_empty question then returns nothing_found else (do
        hits ← search 𝓕 s nearest db e r tenant question limit document_ids
        ask_about llm question hits)
