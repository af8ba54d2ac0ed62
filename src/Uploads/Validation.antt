-- ===== src/Uploads/Validation.antt =====
-- `validate_upload` and `receive_upload` of app/services/uploads.py: what an accepted upload is.
use document_intelligence_mv.Prelude.{
  ℕ, ◌≤◌, ◌≡◌, refl, sym, subst, Bool, true, false, not, Option, none, some, List, [], ◌∷◌, Text,
  is_empty, length, if◌then◌else◌, ltb, In, Bool-cases, inl, inr, arith, starts_with, ◌==◌, text_eq,
  eq_of_==, nat_eq,
}
use document_intelligence_mv.Errors.{
  Result, returns, raises, file_too_large, empty_file, unsupported_file_type, raise_if, ◌>>=◌, ◌>>◌,
  raise_if-returns,
}
use document_intelligence_mv.Uploads.{
  Libraries, ValidatedUpload, SupportedType, supported_types, type_of, magic_of, safe_filename,
  extension_of, contents_match, contradicts, accept, hash_or, validate_upload,
}
use document_intelligence_mv.Uploads.Reading.{
  IsStream, read_upload_bounded_lem, receive_upload, client_name,
}
use document_intelligence_mv.Uploads.Names.{IsName, safe_filename-IsName}
use document_intelligence_mv.Uploads.Contents.{
  IsHarmless, HasBytes, contradicts-IsHarmless, contents_match-HasBytes,
}

-- An upload that agrees with its name, its declared type and its bytes on one supported type.
pub record Agrees (l : Libraries) (filename : Text) (declared : Option Text) (content : Text)
    (max_bytes : ℕ) (file_hash : Option Text) (u : ValidatedUpload) : Type 0 where
  pub type : SupportedType
  pub supported : In type supported_types
  pub by_extension : type.extension ≡ extension_of l u.filename
  pub canonical : u.mime_type ≡ type.mime_type
  pub name : u.filename ≡ safe_filename l filename
  pub name_IsName : IsName u.filename
  pub declaration : IsHarmless l type.accepted declared
  pub contents : HasBytes l (extension_of l u.filename) content
  pub size : u.size ≡ length content
  pub some_byte : 1 ≤ length content
  pub bound : length content ≤ max_bytes
  pub given_hash : (h : Text) → file_hash ≡ some h → u.file_hash ≡ h
  pub own_hash : file_hash ≡ none → u.file_hash ≡ l.sha256 content

type_of-In :
    (ts : List SupportedType) (extension : Text) (t : SupportedType)
    → type_of ts extension ≡ some t
    → In t ts × (t.extension ≡ extension)
unfolding type_of
type_of-In [] extension t h = cc h
type_of-In (x ∷ ts) extension t h = elim (Bool-cases (x.extension == extension)) [
  | inl e ↦
      let same : x ≡ t = some-same (rw (type_of, e) at h) in
      (inl (sym same), subst (λ y. y.extension ≡ extension) same (eq_of_== x.extension extension e))
  | inr e ↦ let (i, p) = type_of-In ts extension t (rw (type_of, e) at h) in (inr i, p)
]
  where
    some-same : some x ≡ some t → x ≡ t
    some-same p = cc

module _ (l : Libraries) (filename : Text) (declared : Option Text) (content : Text) (max_bytes : ℕ)
    (file_hash : Option Text) where
  -- A validation that returns has found one supported type by the extension of the safe name, and records its
  -- canonical name. The declared type, if it says anything but `application/octet-stream`, is an accepted one. A PDF, a
  -- ZIP package, a PNG or a JPEG begins with its signature, XML with `<` after blanks and a mark of the byte order,
  -- and a table or an STEP 7 source is UTF-8 without a NUL in the first 8192 bytes. The content is not empty and
  -- within the limit, and the hash is the given one, or that of the content if none is given.
  pub validate_upload-Agrees :
      (u : ValidatedUpload)
      → validate_upload l filename declared content max_bytes file_hash ≡ returns u
      → Agrees l filename declared content max_bytes file_hash u
  unfolding validate_upload
  validate_upload-Agrees u h =
      let (full, h1) = raise_if-returns (is_empty content) empty_file _ u h in
      let (small, h2) = raise_if-returns (ltb max_bytes (length content)) file_too_large _ u h1 in
      by_type (type_of supported_types (extension_of l (safe_filename l filename))) refl full small
        h2
    where
      name : Text
      name = safe_filename l filename

      nonempty : (s : Text) → is_empty s ≡ false → 1 ≤ length s
      nonempty [] f = cc f
      nonempty (c ∷ s) f = omega arith

      holds : (b : Bool) → not b ≡ false → b ≡ true
      holds true h = refl
      holds false h = cc h

      within : ltb max_bytes (length content) ≡ false → length content ≤ max_bytes
      within f = ground arith

      by_type :
          (o : Option SupportedType)
          → type_of supported_types (extension_of l name) ≡ o
          → is_empty content ≡ false
          → ltb max_bytes (length content) ≡ false
          → accept l name declared content file_hash o ≡ returns u
          → Agrees l filename declared content max_bytes file_hash u
      by_type none e full small k = cc k
      by_type (some t) e full small k =
          let made : Result ValidatedUpload = returns (record {
            filename = name;
            mime_type = t.mime_type;
            file_hash = hash_or l file_hash content;
            size = length content;
          }) in
          let bad : Bool = not (contents_match l (extension_of l name) content) in
          let unsigned : Bool = not (starts_with content (magic_of (extension_of l name))) in
          let (d, k1) =
            raise_if-returns (contradicts l declared t.accepted) unsupported_file_type
              (raise_if unsigned unsupported_file_type
                >> (raise_if bad unsupported_file_type >> made))
              u k in
          let (m, k2) =
            raise_if-returns unsigned unsupported_file_type
              (raise_if bad unsupported_file_type >> made) u k1 in
          let (c, k3) = raise_if-returns bad unsupported_file_type made u k2 in
          let (i, p) = type_of-In supported_types (extension_of l name) t e in
          let same : record {
            filename = name;
            mime_type = t.mime_type;
            file_hash = hash_or l file_hash content;
            size = length content;
          }
              ≡ u =
            cc k3 in
          subst (Agrees l filename declared content max_bytes file_hash) same (record {
            type = t;
            supported = i;
            by_extension = p;
            canonical = refl;
            name = refl;
            name_IsName = safe_filename-IsName l filename;
            declaration = contradicts-IsHarmless l t.accepted declared d;
            contents =
                contents_match-HasBytes l (extension_of l name) content
                  (holds (starts_with content (magic_of (extension_of l name))) m)
                  (holds (contents_match l (extension_of l name) content) c);
            size = refl;
            some_byte = nonempty content full;
            bound = within small;
            given_hash = λ x e. rw e refl;
            own_hash = λ e. rw e refl;
          })

module _ (portion : ℕ → Text → ℕ) (max_bytes chunk_size : ℕ) (l : Libraries)
    (filename declared : Option Text) (body : Text) where
  -- For a stream that gives something before its end, and a chunk size of at least one byte, a received upload
  -- comes to a result: a body over `max_bytes` is refused as too large; of any other the result is
  -- that of the validation of the whole body, with the digest of the body.
  pub receive_upload_lem :
      IsStream portion
      → 1 ≤ chunk_size
      → receive_upload portion max_bytes chunk_size l filename declared body
        ≡ some (
            if ltb max_bytes (length body)
            then raises file_too_large
            else (validate_upload l
                  (client_name filename)
                  declared
                  body
                  max_bytes
                  (some (l.sha256 body))
                >>= λ u. returns (u, body)))
  unfolding receive_upload
  receive_upload_lem i b = elim (Bool-cases (ltb max_bytes (length body))) [
    | inl t ↦
        rw (read_upload_bounded_lem portion max_bytes chunk_size i b l body, receive_upload, t) refl
    | inr t ↦
        rw (read_upload_bounded_lem portion max_bytes chunk_size i b l body, receive_upload, t) refl
  ]
