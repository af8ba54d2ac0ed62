-- ===== src/Processing/Replacing.antt =====
-- A run of app/services/processing.py: which rows of the chunks table are written and which stay, and the document's
-- status.
use document_intelligence_mv.Prelude.{ℕ, ◌≢◌, ◌⊎◌, List, In, nat_eq}
use document_intelligence_mv.Models.{Document, Chunk}
use document_intelligence_mv.Floats.{Floats}
use document_intelligence_mv.Processing.{Services, ParsedChunk}
use document_intelligence_mv.Processing.Storing.{IsRowOf}
use document_intelligence_mv.World.{World}

module _ (𝓕 : Floats) {O S : Type 0} (s : Services O S 𝓕.Float) (fresh : ℕ → ℕ)
    (profile_id now : ℕ) where
  open 𝓕 use {Float}

  -- The rows after the run: those of the parsed passages, and the old ones of other documents.
  pub record IsReplacement (d : Document) (ps : List ParsedChunk) (rows rows' : List Chunk)
      : Type 0 where
    pub accounted :
        (c : Chunk)
        → In c rows'
        → ((p : ParsedChunk) × In p ps × IsRowOf s.libraries fresh now d p c)
          ⊎ ((c.document_id ≢ d.id) × In c rows)
    pub others_kept : (c : Chunk) → c.document_id ≢ d.id → In c rows → In c rows'
