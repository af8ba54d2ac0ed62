-- ===== src/Tests/Gathered.antt =====
-- The gathering of candidates on two documents of the same bytes.
use document_intelligence_mv.Prelude.{
  ℕ, ◌≡◌, ◌≢◌, refl, none, some, List, [], ◌∷◌, In, ap, Text, codes, strip, join_with, split_on,
  inl, inr, nat_eq, arith,
}
use document_intelligence_mv.Errors.{Result, returns}
use document_intelligence_mv.Models.{Document}
use document_intelligence_mv.Database.{Db}
use document_intelligence_mv.Relations.{Candidate}
use document_intelligence_mv.Relations.Gathering.{candidate_of, compare_with}
use document_intelligence_mv.Models.{RelationType}
use document_intelligence_mv.Relations.{Reason, classify}
use document_intelligence_mv.Normalization.{Libraries, normalize_text, content_hash, layout}
use document_intelligence_mv.Relations.Gathering.Blank.{classify-blank}
use document_intelligence_mv.Tests.Processed.{settings}
use document_intelligence_mv.Tests.Samples.{percents, ascii_lower, sample_document}

abbrev twin : Document
twin = record sample_document { id = 71 }

abbrev db : Db ℕ
db = record {
  documents = sample_document ∷ twin ∷ [];
  chunks = [];
  profiles = [];
  relations = [];
  jobs = [];
}

-- A store that lists a document that is not in the table.
abbrev similar : ℕ → ℕ → ℕ → ℕ → Result (List (ℕ × ℕ))
similar tenant vector limit exclude = returns ((99, 80) ∷ [])

abbrev found : List (Candidate ℕ)
found = candidate_of ascii_lower sample_document none ((99, 80) ∷ []) (twin, none) ∷ []

abbrev libraries : Libraries
libraries = record { nfc = λ s. s; sha256 = λ s. b'h' ∷ s; uuid_text = λ n. n ∷ [] }

-- Two pictures without text, and a scan of blanks.
abbrev picture : Document
picture = record sample_document { content_hash = some (b'h' ∷ []) }

abbrev scan : Document
scan = record sample_document { id = 71; file_hash = codes "bb"; content_hash = some (b'h' ∷ []) }

abbrev blank_db : Db ℕ
blank_db = record db { documents = picture ∷ scan ∷ [] }

nothing_left : (normalize_text libraries [] ≡ []) × (normalize_text libraries (codes "  ") ≡ [])
unfolding normalize_text layout strip join_with split_on nat_eq
nothing_left = (refl, refl)

hashes :
    (some (b'h' ∷ []) ≡ some (content_hash libraries []))
    × (some (b'h' ∷ []) ≡ some (content_hash libraries (codes "  ")))
unfolding content_hash normalize_text layout strip join_with split_on nat_eq
hashes = (refl, refl)

other_id : scan.id ≢ picture.id
other_id e = omega (arith, e)

other_bytes : scan.file_hash ≢ picture.file_hash
other_bytes e = omega (arith, ap length_of_b e)
  where
    length_of_b : Text → ℕ
    length_of_b [] = 0
    length_of_b (c ∷ s) = c

classify-blank_example :
    (c : Candidate ℕ) × In c (compare_with ascii_lower blank_db 7 picture [])
    × (c.document_id ≡ 71)
    × (classify percents c settings
        ≡ some (record {
          relation_type = RelationType.content_duplicate;
          score = some 100;
          reason = Reason.content_hash;
        }))
classify-blank_example =
    classify-blank percents libraries ascii_lower blank_db 7 picture [] settings scan []
      (codes "  ") nothing_left.0 nothing_left.1 hashes.0 hashes.1 refl (inr (inl refl)) refl
      other_id refl other_bytes
