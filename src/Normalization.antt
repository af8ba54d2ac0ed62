-- ===== src/Normalization.antt =====
-- app/services/normalization.py: the canonical form of a text, its hash, and the id of a passage. Unicode's
-- NFC, the digest of a text's UTF-8 bytes and the text of a UUID are parameters.
use document_intelligence_mv.Prelude.{
  ℕ, suc, zero, ◌-◌, Bool, true, false, not, ◌&&◌, [], ◌∷◌, ◌++◌, map, Text, codes, length, ◌==◌,
  nat_eq, leb, if◌then◌else◌, is_space, split_on, join_with, rstrip_by, strip,
}
use document_intelligence_mv.Qa.{decimal}

-- `\r\n?` becomes `\n`; the flag says that the last character was `\r`.
unfoldable pub line_endings : Bool → Text → Text
line_endings cr [] = []
line_endings cr (c ∷ s) =
    let after = line_endings true s in
    let rest = line_endings false s in
    if c == 13 then 10 ∷ after else (if cr && c == 10 then rest else c ∷ rest)

-- `[^\S\n]+` becomes one space; the flag says that a run is open.
unfoldable pub horizontal : Bool → Text → Text
horizontal run [] = []
horizontal run (c ∷ s) =
    let within = horizontal true s in
    let rest = horizontal false s in
    if is_space c && not (c == 10) then (if run then within else 32 ∷ within) else c ∷ rest

-- `\n{3,}` becomes two newlines; the number counts those of the run so far.
unfoldable pub blank_lines : ℕ → Text → Text
blank_lines n [] = []
blank_lines n (c ∷ s) =
    let dropped = blank_lines n s in
    let counted = blank_lines (suc n) s in
    let rest = blank_lines 0 s in
    if c == 10 then (if leb 2 n then dropped else 10 ∷ counted) else c ∷ rest

unfoldable pub trimmed_lines : Text → Text
trimmed_lines s = join_with (10 ∷ []) (map (rstrip_by is_space) (split_on 10 s))

-- All of `normalize_text` but NFC.
unfoldable pub layout : Text → Text
unfolding line_endings horizontal trimmed_lines blank_lines
layout s = strip (blank_lines 0 (trimmed_lines (horizontal false (line_endings false s))))

-- `"0" * n`
abbrev zeros : ℕ → Text
zeros zero = []
zeros (suc n) = b'0' ∷ zeros n

-- The libraries that the module calls; `sha256` digests the UTF-8 bytes of a text.
pub record Libraries : Type 0 where
  pub nfc : Text → Text
  pub sha256 : Text → Text
  pub uuid_text : ℕ → Text

module _ (l : Libraries) where
  unfoldable pub normalize_text : Text → Text
  unfolding layout
  normalize_text text = layout (l.nfc text)

  unfoldable pub content_hash : Text → Text
  content_hash text = l.sha256 (normalize_text text)

  -- `f"{document_id}:{ordinal:05d}"`
  unfoldable pub source_id_for : ℕ → ℕ → Text
  unfolding decimal
  source_id_for document ordinal =
      l.uuid_text document
      ++ (codes ":" ++ (zeros (5 - length (decimal ordinal)) ++ decimal ordinal))
