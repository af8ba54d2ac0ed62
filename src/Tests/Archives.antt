-- ===== src/Tests/Archives.antt =====
-- app/adapters/zip_unpack.py and app/services/uploads.py on small files.
use document_intelligence_mv.Prelude.{
  ℕ, ◌≡◌, refl, true, false, some, List, [], ◌∷◌, Text, codes, arith, nat_eq, text_eq,
  if◌then◌else◌, ltb, min, starts_with, split_on, has_part, join_with, strip, lstrip_by, rstrip_by,
}
use document_intelligence_mv.Errors.{returns, raises, file_too_large}
use document_intelligence_mv.ZipUnpack as Z
use document_intelligence_mv.ZipUnpack.{
  ArchiveMember, ZipInfo, member_of, safe_path, safe_unpack, safe_parts, unpack_members,
  unpack_member, is_directory,
}
use document_intelligence_mv.ZipUnpack.Paths.{IsSafe, safe_path-IsSafe}
use document_intelligence_mv.ZipUnpack.Limits.{Safe, safe_unpack-Safe}
use document_intelligence_mv.Uploads.{
  Libraries, ValidatedUpload, validate_upload, safe_filename, supported_types, type_of, magic_of,
  is_name_char, extension_of, contents_match, sub_unsafe, is_utf8_text,
}
use document_intelligence_mv.Uploads.Reading.{
  IsStream, read_upload_bounded, read_upload_bounded_lem,
}
use document_intelligence_mv.Uploads.Validation.{Agrees, validate_upload-Agrees}
use document_intelligence_mv.Tests.Samples.{ascii_lower}

abbrev entry : ZipInfo
entry = record {
  filename = codes "./src\\main.scl";
  is_dir = false;
  flag_bits = 0;
  file_size = 2;
  compress_size = 2;
}

-- Libraries that know one archive; the digest of a text is the text.
abbrev zip : Z.Libraries
zip = record {
  infolist = λ content. some (entry ∷ []);
  read = λ content info. some (codes "ok");
  sha256 = λ s. s;
  lower = ascii_lower;
}

abbrev unpacked : List ArchiveMember
unpacked = member_of zip (codes "src/main.scl") (codes "ok") ∷ []

path_runs : safe_path (codes "./src\\main.scl") ≡ returns (codes "src/main.scl")
unfolding safe_path safe_parts split_on has_part join_with starts_with nat_eq text_eq
path_runs = refl

safe_path-IsSafe_example : IsSafe (codes "src/main.scl")
safe_path-IsSafe_example =
    safe_path-IsSafe (codes "./src\\main.scl") (codes "src/main.scl") path_runs

unpack_runs : safe_unpack zip (codes "PK") ≡ returns unpacked
unfolding safe_unpack unpack_members unpack_member is_directory safe_path safe_parts split_on
    has_part join_with starts_with nat_eq text_eq
unpack_runs = refl

safe_unpack-Safe_example : (infos : List ZipInfo) × Safe zip (codes "PK") infos unpacked
safe_unpack-Safe_example = safe_unpack-Safe zip (codes "PK") unpacked unpack_runs

abbrev plain : Libraries
plain = record { nfkd = λ s. s; lower = ascii_lower; sha256 = λ s. s; is_utf8 = λ s. true }

-- A stream that gives at most two bytes at a time.
abbrev pairwise : ℕ → Text → ℕ
pairwise n rest = min n 2

pairwise-IsStream : IsStream pairwise
pairwise-IsStream = record { some_bytes = λ n c rest h. omega (arith, h) }

read_upload_bounded_example :
    read_upload_bounded pairwise 4 3 plain (codes "abcde")
    ≡ some (if ltb 4 5 then raises file_too_large else returns (codes "abcde", codes "abcde"))
read_upload_bounded_example =
    read_upload_bounded_lem pairwise 4 3 pairwise-IsStream (omega arith) plain (codes "abcde")

abbrev note : ValidatedUpload
note = record {
  filename = codes "a_b.csv";
  mime_type = codes "text/csv";
  file_hash = codes "h";
  size = 3;
}

validate_runs :
    validate_upload plain
      (codes "dir/a b.csv")
      (some (codes "text/plain; charset=utf-8"))
      (codes "1,2")
      9
      (some (codes "h"))
    ≡ returns note
unfolding validate_upload safe_filename supported_types type_of magic_of is_name_char extension_of
    contents_match sub_unsafe starts_with split_on has_part nat_eq text_eq strip lstrip_by rstrip_by
    is_utf8_text
validate_runs = refl

validate_upload-Agrees_example :
    Agrees plain
      (codes "dir/a b.csv")
      (some (codes "text/plain; charset=utf-8"))
      (codes "1,2")
      9
      (some (codes "h"))
      note
validate_upload-Agrees_example =
    validate_upload-Agrees plain (codes "dir/a b.csv") (some (codes "text/plain; charset=utf-8"))
      (codes "1,2") 9 (some (codes "h")) note validate_runs
