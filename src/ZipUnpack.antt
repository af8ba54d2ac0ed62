-- ===== src/ZipUnpack.antt =====
-- app/adapters/zip_unpack.py: the unpacking of an archive. Python's zipfile, SHA-256 and `str.lower`
-- are parameters. `file_size / compressed > 200` is written without a division: beside sizes that are
-- checked first, the float comparison is exact.
pub mod Paths
pub mod Limits
use document_intelligence_mv.Prelude.{
  ℕ, ◌+◌, ◌*◌, ◌%◌, Bool, true, false, not, ◌&&◌, ◌||◌, Option, none, some, List, [], ◌∷◌, ◌++◌,
  map, Text, codes, is_empty, select, length, contains, ◌==◌, nat_eq, text_eq, if◌then◌else◌, ltb,
  leb, starts_with, ends_with, has_part, split_on, join_with,
}
use document_intelligence_mv.Errors.{
  Result, returns, raises, package_rejected, value_error, raise_if, ◌>>=◌, ◌>>◌,
}

abbrev pub max_members : ℕ
max_members = 256

abbrev pub max_uncompressed_total : ℕ
max_uncompressed_total = 83886080  -- 80 * 1024 * 1024

abbrev pub max_uncompressed_member : ℕ
max_uncompressed_member = 52428800  -- 50 * 1024 * 1024

abbrev pub max_compression_ratio : ℕ
max_compression_ratio = 200

abbrev pub ratio_floor : ℕ
ratio_floor = 256

abbrev pub max_path : ℕ
max_path = 240

pub record ArchiveMember : Type 0 where
  pub path_hint : Text
  pub content : Text
  pub file_hash : Text
  pub nested_archive : Bool

-- zipfile.ZipInfo, the fields that are read.
pub record ZipInfo : Type 0 where
  pub filename : Text
  pub is_dir : Bool
  pub flag_bits : ℕ
  pub file_size : ℕ
  pub compress_size : ℕ

-- What the module calls; `none` is BadZipFile.
pub record Libraries : Type 0 where
  pub infolist : Text → Option (List ZipInfo)
  pub read : Text → ZipInfo → Option Text
  pub sha256 : Text → Text
  pub lower : Text → Text

-- `name.replace("\\", "/")`
abbrev pub slashed : ℕ → ℕ
slashed c = if c == b'\\' then b'/' else c

abbrev pub with_slashes : Text → Text
with_slashes name = map slashed name

unfoldable pub is_directory : ZipInfo → Bool
unfolding ends_with
is_directory info = info.is_dir || ends_with (with_slashes info.filename) (codes "/")

abbrev pub is_skipped : Text → Bool
is_skipped part = is_empty part || part == codes "."

abbrev pub is_refused : Text → Bool
is_refused part = part == codes ".." || has_part part (codes ":")

-- The loop of `_safe_path` over the parts of a path.
unfoldable pub safe_parts : List Text → Result (List Text)
unfolding has_part
safe_parts [] = returns []
safe_parts (part ∷ parts) =
    let rest = safe_parts parts in
    if is_skipped part
    then rest
    else (do raise_if (is_refused part) package_rejected; kept ← rest; returns (part ∷ kept))

abbrev pub join_parts : List Text → Result Text
join_parts parts = do
  raise_if (is_empty parts) package_rejected
  raise_if (ltb max_path (length (join_with (codes "/") parts))) package_rejected
  returns (join_with (codes "/") parts)

unfoldable pub safe_path : Text → Result Text
unfolding starts_with
safe_path name = do
  raise_if
      (starts_with (with_slashes name) (codes "/") || starts_with (with_slashes name) (b'\\' ∷ []))
      package_rejected
  safe_parts (split_on b'/' (with_slashes name)) >>= join_parts

-- `info.compress_size or 1`
abbrev pub compressed_size : ZipInfo → ℕ
compressed_size info = if info.compress_size == 0 then 1 else info.compress_size

abbrev pub exceeds_ratio : ZipInfo → Bool
exceeds_ratio info =
    leb ratio_floor info.file_size
    && (leb 1 (compressed_size info)
        && ltb (max_compression_ratio * compressed_size info) info.file_size)

-- The loop of `assert_zip_directory_within_limits`, from the total so far.
unfoldable pub check_sizes : ℕ → List ZipInfo → Result (Unit {0})
unfolding nat_eq
check_sizes total [] = returns tt
check_sizes total (info ∷ infos) = do
  raise_if (ltb max_uncompressed_member info.file_size) value_error
  raise_if (exceeds_ratio info) value_error
  raise_if (ltb max_uncompressed_total (total + info.file_size)) value_error
  check_sizes (total + info.file_size) infos

abbrev pub files_of : List ZipInfo → List ZipInfo
files_of infos = select (λ info. not (is_directory info)) infos

unfoldable pub assert_zip_directory_within_limits : Option (List ZipInfo) → Result (Unit {0})
unfolding check_sizes is_directory
assert_zip_directory_within_limits none = raises value_error
assert_zip_directory_within_limits (some infos) = do
  raise_if (ltb max_members (length (files_of infos))) value_error
  check_sizes 0 (files_of infos)

-- `archive.read(info)`, or the refusal.
abbrev pub payload_of : Option Text → Result Text
payload_of none = raises package_rejected
payload_of (some payload) = returns payload

abbrev pub member_of : Libraries → Text → Text → ArchiveMember
member_of l path payload = record {
  path_hint = path;
  content = payload;
  file_hash = l.sha256 payload;
  nested_archive =
      starts_with payload (80 ∷ 75 ∷ 3 ∷ 4 ∷ []) && ends_with (l.lower path) (codes ".zip");
}

abbrev pub keep_whole : Libraries → ZipInfo → Text → Text → Result ArchiveMember
keep_whole l info path payload = do
  raise_if (not (length payload == info.file_size)) package_rejected
  returns (member_of l path payload)

-- A turn of the loop of `safe_unpack`, from the member's path on.
abbrev pub unpack_at : Libraries → Text → List Text → ℕ → ZipInfo → Text → Result ArchiveMember
unpack_at l content seen total info path = do
  raise_if (contains seen path) package_rejected
  raise_if (ltb max_uncompressed_member info.file_size) package_rejected
  raise_if (exceeds_ratio info) package_rejected
  raise_if (ltb max_uncompressed_total (total + info.file_size)) package_rejected
  payload_of (l.read content info) >>= keep_whole l info path

-- One turn of the loop of `safe_unpack`: the paths that were seen, and the total so far.
unfoldable pub unpack_member : Libraries → Text → List Text → ℕ → ZipInfo → Result ArchiveMember
unfolding nat_eq text_eq
unpack_member l content seen total info = do
  raise_if (info.flag_bits % 2 == 1) package_rejected
  safe_path info.filename >>= unpack_at l content seen total info

unfoldable pub unpack_members :
    Libraries → Text → List Text → ℕ → List ZipInfo → Result (List ArchiveMember)
unpack_members l content seen total [] = returns []
unpack_members l content seen total (info ∷ infos) = do
  member ← unpack_member l content seen total info
  members ← unpack_members l content (member.path_hint ∷ seen) (total + info.file_size) infos
  returns (member ∷ members)

abbrev pub unpack_infos : Libraries → Text → Option (List ZipInfo) → Result (List ArchiveMember)
unpack_infos l content none = raises package_rejected
unpack_infos l content (some infos) = do
  raise_if (is_empty (files_of infos)) package_rejected
  raise_if (ltb max_members (length (files_of infos))) package_rejected
  unpack_members l content [] 0 (files_of infos)

unfoldable pub safe_unpack : Libraries → Text → Result (List ArchiveMember)
unfolding starts_with is_directory
safe_unpack l content = do
  raise_if (not (starts_with content (codes "PK"))) package_rejected
  unpack_infos l content (l.infolist content)
