-- ===== src/Qa/Answering.antt =====
-- `ask` of app/services/qa.py: what the model is asked, and what becomes of its reply.
use document_intelligence_mv.Prelude.{
  ◌≡◌, List, [], ◌∷◌, ◌++◌, map, Text, codes, length, All, In, select, contains, text_eq,
}
use document_intelligence_mv.Errors.{Result, returns}
use document_intelligence_mv.Floats.{Floats}
use document_intelligence_mv.Retrieval.{SearchHit}
use document_intelligence_mv.Qa.{GroundedAnswer, AskResult}
use document_intelligence_mv.Qa.Grounding.{replied}

-- The text `part` stands somewhere in `s`.
abbrev pub Contains : Text → Text → Type 0
Contains s part = (before : Text) × (after : Text) × (s ≡ before ++ (part ++ after))

module _ {F : Type 0} where
  -- A hit as the model reads it: its source id, its file, something of its place, and on the next line its text.
  abbrev pub Quotes : Text → SearchHit F → Type 0
  Quotes prompt h =
      (place : Text) × Contains prompt (
        codes "[source_id: "
        ++ (h.source_id
            ++ (codes "] " ++ (h.document_filename ++ (place ++ ((10 ∷ []) ++ h.text))))))

  abbrev pub source_ids_of : List (SearchHit F) → List Text
  source_ids_of hits = map (λ (h : SearchHit F). h.source_id) hits

  -- The model's reply to a prompt that quotes the hits and asks the question; sources are the hits that it
  -- names.
  pub record IsReply (llm : Text → Result GroundedAnswer) (question : Text)
      (hits : List (SearchHit F)) (x : AskResult F) : Type 0 where
    pub prompt : Text
    pub reply : GroundedAnswer
    pub quoted : All (Quotes prompt) hits
    pub asked : (before : Text) × (prompt ≡ before ++ (codes "Question: " ++ question))
    pub replied : llm prompt ≡ returns reply
    pub answer : x.answer ≡ reply.answer
    pub has_sufficient_evidence : x.has_sufficient_evidence ≡ reply.has_sufficient_evidence
    pub conflicting : x.conflicting ≡ reply.conflicting
    pub sources : All (λ h. In h hits) x.sources
    pub source_ids :
        source_ids_of x.sources ≡ select (contains (source_ids_of hits)) reply.source_ids
    pub considered : x.considered ≡ length hits
