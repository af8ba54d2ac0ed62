-- ===== src/Tests/Samples.antt =====
-- Parameters of the model at concrete values: floats by numbers in percent, `lower` on ASCII.
use document_intelligence_mv.Prelude.{
  ℕ, ◌+◌, ◌≡◌, refl, true, false, ◌&&◌, Text, map, leb, if◌then◌else◌, codes, arith, none,
}
use document_intelligence_mv.Floats.{Floats, IsOrdered}
use document_intelligence_mv.Models.{Document, DocumentStatus}

abbrev pub percents : Floats
percents = record { Float = ℕ; le = leb; zero_float = 0; one = 100; round4 = λ x. x }

pub percents_total : (a b : ℕ) → leb a b ≡ false → leb b a ≡ true
percents_total a b h = ground arith

pub percents_trans : (a b c : ℕ) → leb a b ≡ true → leb b c ≡ true → leb a c ≡ true
percents_trans a b c h k = ground arith

abbrev pub percents-IsOrdered : IsOrdered percents
percents-IsOrdered = record {
  total = percents_total;
  trans = percents_trans;
  zero_le_one = refl;
  one_refl = refl;
  zero_refl = refl;
}

abbrev pub ascii_lower : Text → Text
ascii_lower = map (λ c. if leb b'A' c && leb c b'Z' then c + 32 else c)

-- A document that was uploaded and not yet processed.
abbrev pub sample_document : Document
sample_document = record {
  id = 70;
  tenant_id = 7;
  filename = codes "contract.pdf";
  mime_type = codes "application/pdf";
  storage_key = codes "7/70/contract.pdf";
  file_hash = codes "aa";
  content_hash = none;
  normalized_key = none;
  parser_name = none;
  status = DocumentStatus.queued;
  title = none;
  document_type = none;
  summary = none;
  embedding_provider = none;
  embedding_model = none;
  embedding_version = none;
  embedding_dimensions = none;
  created_at = 1;
  updated_at = 1;
  deleted_at = none;
}
