-- ===== src/Uploads.antt =====
-- app/services/uploads.py: what an upload is read to and what it is accepted as. Unicode's NFKD,
-- `str.lower`, SHA-256 and the decoding of UTF-8 are parameters; bytes are numbers.
pub mod Reading
pub mod Names
pub mod Contents
pub mod Validation
use document_intelligence_mv.Prelude.{
  ℕ, zero, suc, ◌+◌, ◌-◌, min, Bool, true, false, not, ◌&&◌, ◌||◌, Option, none, some, List, [],
  ◌∷◌, ◌++◌, map, Text, codes, strip, is_empty, length, take, drop, contains, ◌==◌, nat_eq, text_eq,
  if◌then◌else◌, ltb, leb, starts_with, has_part, split_on, lstrip_by, rstrip_by,
}
use document_intelligence_mv.Errors.{
  Result, returns, raises, file_too_large, empty_file, unsupported_file_type, raise_if, ◌>>=◌, ◌>>◌,
}

pub record Libraries : Type 0 where
  pub nfkd : Text → Text
  pub lower : Text → Text
  pub sha256 : Text → Text
  pub is_utf8 : Text → Bool

pub record ValidatedUpload : Type 0 where
  pub filename : Text
  pub mime_type : Text
  pub file_hash : Text
  pub size : ℕ

abbrev docx_mime : Text
docx_mime = codes "application/vnd.openxmlformats-officedocument.wordprocessingml.document"

abbrev pptx_mime : Text
pptx_mime = codes "application/vnd.openxmlformats-officedocument.presentationml.presentation"

abbrev xlsx_mime : Text
xlsx_mime = codes "application/vnd.openxmlformats-officedocument.spreadsheetml.sheet"

-- A row of SUPPORTED_TYPES: the canonical type and the accepted declared types of an extension.
pub record SupportedType : Type 0 where
  pub extension : Text
  pub mime_type : Text
  pub accepted : List Text

abbrev supported : Text → Text → List Text → SupportedType
supported extension mime more = record {
  extension = extension;
  mime_type = mime;
  accepted = mime ∷ more;
}

unfoldable pub supported_types : List SupportedType
supported_types =
    supported (codes ".pdf") (codes "application/pdf") []
    ∷ supported (codes ".docx") docx_mime []
    ∷ supported (codes ".pptx") pptx_mime []
    ∷ supported (codes ".xlsx") xlsx_mime []
    ∷ supported (codes ".html") (codes "text/html") []
    ∷ supported (codes ".htm") (codes "text/html") []
    ∷ supported (codes ".md") (codes "text/markdown") (codes "text/plain" ∷ [])
    ∷ supported (codes ".txt") (codes "text/plain") []
    ∷ supported (codes ".zip") (codes "application/zip") (codes "application/x-zip-compressed" ∷ [])
    ∷ supported (codes ".xml") (codes "application/xml") (codes "text/xml" ∷ [])
    ∷ supported (codes ".csv") (codes "text/csv") (codes "text/plain" ∷ [])
    ∷ supported (codes ".tsv") (codes "text/tab-separated-values") (codes "text/plain" ∷ [])
    ∷ supported (codes ".scl") (codes "text/x-scl") (codes "text/plain" ∷ [])
    ∷ supported (codes ".awl") (codes "text/x-awl") (codes "text/plain" ∷ [])
    ∷ supported (codes ".png") (codes "image/png") []
    ∷ supported (codes ".jpg") (codes "image/jpeg") []
    ∷ supported (codes ".jpeg") (codes "image/jpeg") []
    ∷ []

-- `SUPPORTED_TYPES.get(extension)`
unfoldable pub type_of : List SupportedType → Text → Option SupportedType
type_of [] extension = none
type_of (t ∷ ts) extension =
    let rest = type_of ts extension in if t.extension == extension then some t else rest

abbrev zip_magic : Text
zip_magic = 80 ∷ 75 ∷ 3 ∷ 4 ∷ []

-- `_MAGIC.get(extension)`; an extension without a signature has the empty one, which is also false.
unfoldable pub magic_of : Text → Text
magic_of extension =
    if extension == codes ".pdf"
    then codes "%PDF-"
    else (if contains (codes ".docx" ∷ codes ".pptx" ∷ codes ".xlsx" ∷ codes ".zip" ∷ []) extension
        then zip_magic
        else (if extension == codes ".png"
            then 137 ∷ 80 ∷ 78 ∷ 71 ∷ 13 ∷ 10 ∷ 26 ∷ 10 ∷ []
            else (if extension == codes ".jpg" || extension == codes ".jpeg"
                then 255 ∷ 216 ∷ 255 ∷ []
                else [])))

-- `[A-Za-z0-9._-]`
unfoldable pub is_name_char : ℕ → Bool
is_name_char c =
    (leb b'A' c && leb c b'Z')
    || ((leb b'a' c && leb c b'z')
        || ((leb b'0' c && leb c b'9') || (c == b'.' || (c == b'_' || c == b'-'))))

-- `_UNSAFE_FILENAME_CHARS.sub("_", s)`: one underscore for each run; `run` says that one is open.
unfoldable pub sub_unsafe : Bool → Text → Text
sub_unsafe run [] = []
sub_unsafe run (c ∷ s) =
    let kept = sub_unsafe false s in
    let dropped = sub_unsafe true s in
    if is_name_char c then c ∷ kept else (if run then dropped else b'_' ∷ dropped)

-- `parts[-1]`
abbrev pub last_part : List Text → Text
last_part [] = []
last_part (part ∷ []) = part
last_part (part ∷ next ∷ parts) = last_part (next ∷ parts)

abbrev pub is_dot : ℕ → Bool
is_dot c = c == b'.' || c == b'_'

abbrev pub or_upload : Text → Text
or_upload base = if is_empty base then codes "upload" else base

abbrev pub basename : Text → Text
basename filename = last_part (split_on b'/' (map (λ c. if c == b'\\' then b'/' else c) filename))

module _ (l : Libraries) where
  unfoldable pub safe_filename : Text → Text
  unfolding lstrip_by rstrip_by
  safe_filename filename = take 200 (
      or_upload
        (rstrip_by is_dot (lstrip_by is_dot (sub_unsafe false (l.nfkd (basename filename))))))

  -- `name.rpartition(".")` gives the text after the last dot.
  unfoldable pub extension_of : Text → Text
  unfolding has_part split_on
  extension_of filename =
      let name = l.lower (safe_filename filename) in
      if has_part name (codes ".") then codes "." ++ last_part (split_on b'.' name) else []

  abbrev mime_of : Option SupportedType → Text
  mime_of none = codes "application/octet-stream"
  mime_of (some t) = t.mime_type

  unfoldable pub mime_for_extension : Text → Text
  mime_for_extension filename = mime_of (type_of supported_types (extension_of filename))

  unfoldable pub is_utf8_text : Text → Bool
  is_utf8_text content = not (contains (take 8192 content) 0) && l.is_utf8 content

  -- `content.lstrip(b"\xef\xbb\xbf \t\r\n")`
  unfoldable pub stripped_head : Text → Text
  unfolding lstrip_by
  stripped_head content =
      lstrip_by (λ c. contains (239 ∷ 187 ∷ 191 ∷ 32 ∷ 9 ∷ 13 ∷ 10 ∷ []) c) content

  unfoldable pub contents_match : Text → Text → Bool
  unfolding starts_with
  contents_match extension content =
      starts_with content (magic_of extension)
      && (if extension == codes ".xml"
          then starts_with (stripped_head content) (codes "<?xml")
            || starts_with (stripped_head content) (codes "<")
          else (if contains (codes ".csv" ∷ codes ".tsv" ∷ codes ".scl" ∷ codes ".awl" ∷ [])
                extension
              then is_utf8_text content
              else true))

  -- `declared_mime_type.split(";", 1)[0].strip().lower()`
  abbrev first_part : List Text → Text
  first_part [] = []
  first_part (part ∷ parts) = part

  abbrev pub declared_of : Text → Text
  declared_of declared_mime_type = l.lower (strip (first_part (split_on b';' declared_mime_type)))

  -- A declared type that contradicts the extension.
  abbrev pub contradicts : Option Text → List Text → Bool
  contradicts none accepted = false
  contradicts (some declared_mime_type) accepted =
      not (is_empty declared_mime_type)
      && (not (is_empty (declared_of declared_mime_type))
          && (not (declared_of declared_mime_type == codes "application/octet-stream")
              && not (contains accepted (declared_of declared_mime_type))))

  -- `file_hash if file_hash is not None else hashlib.sha256(content).hexdigest()`
  abbrev pub hash_or : Option Text → Text → Text
  hash_or none content = l.sha256 content
  hash_or (some file_hash) content = file_hash

  abbrev pub accept :
      Text → Option Text → Text → Option Text → Option SupportedType → Result ValidatedUpload
  accept name declared content file_hash none = raises unsupported_file_type
  accept name declared content file_hash (some t) = do
    raise_if (contradicts declared t.accepted) unsupported_file_type
    raise_if (not (starts_with content (magic_of (extension_of name)))) unsupported_file_type
    raise_if (not (contents_match (extension_of name) content)) unsupported_file_type
    returns record {
      filename = name;
      mime_type = t.mime_type;
      file_hash = hash_or file_hash content;
      size = length content;
    }

  unfoldable pub validate_upload :
      Text → Option Text → Text → ℕ → Option Text → Result ValidatedUpload
  unfolding starts_with
  validate_upload filename declared content max_bytes file_hash = do
    raise_if (is_empty content) empty_file
    raise_if (ltb max_bytes (length content)) file_too_large
    accept (safe_filename filename) declared content file_hash
        (type_of supported_types (extension_of (safe_filename filename)))
