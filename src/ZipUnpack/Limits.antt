-- ===== src/ZipUnpack/Limits.antt =====
-- `safe_unpack` and `assert_zip_directory_within_limits` of app/adapters/zip_unpack.py: the limits.
use document_intelligence_mv.Prelude.{
  ℕ, suc, ◌+◌, ◌%◌, ◌≤◌, ◌≡◌, ◌≢◌, refl, ap, subst, false, not, Option, none, some, List, [], ◌∷◌,
  Text, is_empty, length, contains, ◌==◌, nat_eq, text_eq, ltb, All, All-mono, Pairs, arith,
}
use document_intelligence_mv.Errors.{
  returns, package_rejected, ◌>>=◌, >>=-returns, raise_if-returns,
}
use document_intelligence_mv.ZipUnpack.{
  ArchiveMember, ZipInfo, Libraries, max_members, max_uncompressed_total, max_uncompressed_member,
  exceeds_ratio, check_sizes, files_of, assert_zip_directory_within_limits, payload_of, member_of,
  keep_whole, unpack_at, safe_path, unpack_member, unpack_members, unpack_infos, safe_unpack,
}

-- A member that is a file of the archive: read from it, under its safe path, within the limits.
pub record Unpacked (l : Libraries) (content : Text) (info : ZipInfo) (m : ArchiveMember)
    : Type 0 where
  pub path : safe_path info.filename ≡ returns m.path_hint
  pub payload : l.read content info ≡ some m.content
  pub hash : m.file_hash ≡ l.sha256 m.content
  pub size : length m.content ≡ info.file_size
  pub size_bound : info.file_size ≤ max_uncompressed_member
  pub ratio_bound : exceeds_ratio info ≡ false
  pub in_clear : (info.flag_bits % 2 == 1) ≡ false

abbrev pub Members : Libraries → Text → List ZipInfo → List ArchiveMember → Type 0
Members l content [] [] = Unit
Members l content [] (m ∷ ms) = ⊥
Members l content (info ∷ infos) [] = ⊥
Members l content (info ∷ infos) (m ∷ ms) = Unpacked l content info m × Members l content infos ms

abbrev pub total_size : List ArchiveMember → ℕ
total_size [] = 0
total_size (m ∷ ms) = length m.content + total_size ms

module _ (l : Libraries) (content : Text) where
  payload_of-returns : (o : Option Text) (p : Text) → payload_of o ≡ returns p → o ≡ some p
  payload_of-returns none p h = cc
  payload_of-returns (some x) p h = cc

  -- What one turn of the loop that returns has passed.
  unpack_member-Unpacked :
      (seen : List Text) (total : ℕ) (info : ZipInfo) (m : ArchiveMember)
      → unpack_member l content seen total info ≡ returns m
      → Unpacked l content info m
        × (contains seen m.path_hint ≡ false)
        × (ltb max_uncompressed_total (total + info.file_size) ≡ false)
  unfolding unpack_member
  unpack_member-Unpacked seen total info m h =
      let (clear, h1) = raise_if-returns _ package_rejected _ m h in
      let (path, p, h2) =
        >>=-returns (safe_path info.filename) (unpack_at l content seen total info) m h1 in
      let (fresh, h3) = raise_if-returns _ package_rejected _ m h2 in
      let (small, h4) = raise_if-returns _ package_rejected _ m h3 in
      let (ratio, h5) = raise_if-returns _ package_rejected _ m h4 in
      let (fits, h6) = raise_if-returns _ package_rejected _ m h5 in
      let (payload, q, h7) =
        >>=-returns (payload_of (l.read content info)) (keep_whole l info path) m h6 in
      let (whole, h8) = raise_if-returns _ package_rejected _ m h7 in
      let read = payload_of-returns (l.read content info) payload q in
      let same : member_of l path payload ≡ m = cc h8 in
      subst
        (λ x.
          Unpacked l content info x
          × (contains seen x.path_hint ≡ false)
          × (ltb max_uncompressed_total (total + info.file_size) ≡ false))
        same
        (
          record {
            path = p;
            payload = read;
            hash = refl;
            size = whole_size payload whole;
            size_bound = ground arith;
            ratio_bound = ratio;
            in_clear = clear;
          },
          fresh,
          fits,
        )
    where
      whole_size :
          (payload : Text)
          → not (length payload == info.file_size) ≡ false
          → length payload ≡ info.file_size
      whole_size payload w = ground arith

  -- What the loop gives, from the paths seen and the total so far.
  record Loop (seen : List Text) (total : ℕ) (infos : List ZipInfo) (ms : List ArchiveMember)
      : Type 0 where
    members : Members l content infos ms
    fresh : All (λ m. contains seen m.path_hint ≡ false) ms
    apart : Pairs (λ a b. b.path_hint ≢ a.path_hint) ms
    bound : total + total_size ms ≤ max_uncompressed_total
    checked : check_sizes total infos ≡ returns tt
    count : length ms ≡ length infos

  check_sizes-cons :
      (total : ℕ) (info : ZipInfo) (infos : List ZipInfo) (m : ArchiveMember)
      → Unpacked l content info m
      → ltb max_uncompressed_total (total + info.file_size) ≡ false
      → check_sizes (total + info.file_size) infos ≡ returns tt
      → check_sizes total (info ∷ infos) ≡ returns tt
  unfolding check_sizes
  check_sizes-cons total info infos m u fits h =
      let small : ltb max_uncompressed_member info.file_size ≡ false = ltb_of_le u.size_bound in
      rw (small, u.ratio_bound, fits) h
    where
      ltb_of_le :
          info.file_size ≤ max_uncompressed_member
          → ltb max_uncompressed_member info.file_size ≡ false
      ltb_of_le b = ground arith

  Loop-cons :
      (seen : List Text) (total : ℕ) (info : ZipInfo) (infos : List ZipInfo) (m : ArchiveMember)
      (ms : List ArchiveMember)
      → Unpacked l content info m
      → contains seen m.path_hint ≡ false
      → ltb max_uncompressed_total (total + info.file_size) ≡ false
      → Loop (m.path_hint ∷ seen) (total + info.file_size) infos ms
      → Loop seen total (info ∷ infos) (m ∷ ms)
  Loop-cons seen total info infos m ms u new fits k = record {
    members = (u, k.members);
    fresh = (new, All-mono ms older k.fresh);
    apart = (All-mono ms other k.fresh, k.apart);
    bound = omega (arith, k.bound, u.size);
    checked = check_sizes-cons total info infos m u fits k.checked;
    count = ap suc k.count;
  }
    where
      older :
          (x : ArchiveMember)
          → contains (m.path_hint ∷ seen) x.path_hint ≡ false
          → contains seen x.path_hint ≡ false
      older x h = ground arith

      other :
          (x : ArchiveMember)
          → contains (m.path_hint ∷ seen) x.path_hint ≡ false
          → x.path_hint ≢ m.path_hint
      other x h e = ground arith

  unpack_members-Loop :
      (seen : List Text) (total : ℕ) (infos : List ZipInfo) (ms : List ArchiveMember)
      → total ≤ max_uncompressed_total
      → unpack_members l content seen total infos ≡ returns ms
      → Loop seen total infos ms
  unfolding unpack_members check_sizes
  unpack_members-Loop seen total [] ms b h =
      let same : [] ≡ ms = cc h in
      subst (Loop seen total []) same (record {
        members = tt;
        fresh = tt;
        apart = tt;
        bound = omega arith;
        checked = refl;
        count = refl;
      })
  unpack_members-Loop seen total (info ∷ infos) ms b h =
      let (m, p, h1) =
        >>=-returns (unpack_member l content seen total info)
          (λ m.
            unpack_members l content (m.path_hint ∷ seen) (total + info.file_size) infos >>= λ rest.
            returns (m ∷ rest))
          ms h in
      let (rest, q, h2) =
        >>=-returns (unpack_members l content (m.path_hint ∷ seen) (total + info.file_size) infos)
          (λ rest. returns (m ∷ rest)) ms h1 in
      let (u, new, fits) = unpack_member-Unpacked seen total info m p in
      let same : m ∷ rest ≡ ms = cc h2 in
      subst (Loop seen total (info ∷ infos)) same (
        Loop-cons seen total info infos m rest u new fits (
          unpack_members-Loop (m.path_hint ∷ seen) (total + info.file_size) infos rest (within fits)
            q))
    where
      within :
          ltb max_uncompressed_total (total + info.file_size) ≡ false
          → total + info.file_size ≤ max_uncompressed_total
      within f = ground arith

  -- What an archive that is unpacked comes to.
  pub record Safe (infos : List ZipInfo) (ms : List ArchiveMember) : Type 0 where
    pub listed : l.infolist content ≡ some infos
    pub members : Members l content (files_of infos) ms
    pub apart : Pairs (λ a b. b.path_hint ≢ a.path_hint) ms
    pub some_member : 1 ≤ length ms
    pub member_bound : length ms ≤ max_members
    pub size_bound : total_size ms ≤ max_uncompressed_total
    pub checked : assert_zip_directory_within_limits (l.infolist content) ≡ returns tt

  unpack_infos-Safe :
      (o : Option (List ZipInfo)) (ms : List ArchiveMember)
      → l.infolist content ≡ o
      → unpack_infos l content o ≡ returns ms
      → (infos : List ZipInfo) × Safe infos ms
  unfolding assert_zip_directory_within_limits
  unpack_infos-Safe none ms e h = cc h
  unpack_infos-Safe (some infos) ms e h =
      let (full, h1) = raise_if-returns _ package_rejected _ ms h in
      let (few, h2) = raise_if-returns _ package_rejected _ ms h1 in
      let k = unpack_members-Loop [] 0 (files_of infos) ms (omega arith) h2 in
      (
        infos,
        record {
          listed = e;
          members = k.members;
          apart = k.apart;
          some_member = nonempty (files_of infos) full k.count;
          member_bound = bounded few k.count;
          size_bound = omega (arith, k.bound);
          checked = rw (e, assert_zip_directory_within_limits, few) k.checked;
        },
      )
    where
      nonempty : (xs : List ZipInfo) → is_empty xs ≡ false → length ms ≡ length xs → 1 ≤ length ms
      nonempty [] f c = cc
      nonempty (x ∷ xs) f c = omega arith

      bounded :
          ltb max_members (length (files_of infos)) ≡ false
          → length ms ≡ length (files_of infos)
          → length ms ≤ max_members
      bounded f c = ground arith

  -- The members of an archive that is unpacked are its files in their order, each with the bytes that were
  -- read and their digest, under the safe form of its path; no two have one path; there are 1 to 256,
  -- each of the declared size of at most 50 MiB, of at most 80 MiB in all; and the directory check that
  -- looks at declared sizes alone accepts the archive.
  pub safe_unpack-Safe :
      (ms : List ArchiveMember)
      → safe_unpack l content ≡ returns ms
      → (infos : List ZipInfo) × Safe infos ms
  unfolding safe_unpack
  safe_unpack-Safe ms h =
      let (zip, h1) = raise_if-returns _ package_rejected _ ms h in
      unpack_infos-Safe (l.infolist content) ms refl h1
