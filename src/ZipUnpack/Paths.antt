-- ===== src/ZipUnpack/Paths.antt =====
-- `_safe_path` of app/adapters/zip_unpack.py: the form of a member's path.
use document_intelligence_mv.Prelude.{
  ℕ, ◌≤◌, ◌≡◌, ◌≢◌, refl, ap, subst, false, List, [], ◌∷◌, ◌++◌, Text, codes, is_empty, length,
  ◌==◌, nat_eq, text_eq, ltb, All, All-mono, All-append, Bool-cases, inl, inr, arith, starts_with,
  split_on, join_with, ==-refl, has_part,
}
use document_intelligence_mv.Errors.{returns, package_rejected, >>=-returns, raise_if-returns}
use document_intelligence_mv.ZipUnpack.{
  max_path, slashed, with_slashes, is_skipped, is_refused, safe_parts, join_parts, safe_path,
}

-- A name of one directory or file: no separator and no drive, and neither `.` nor `..`.
pub record IsPlain (part : Text) : Type 0 where
  pub filled : part ≢ []
  pub no_dot : part ≢ codes "."
  pub no_parent : part ≢ codes ".."
  pub no_colon : All (λ c. c ≢ b':') part
  pub no_slash : All (λ c. c ≢ b'/') part
  pub no_backslash : All (λ c. c ≢ b'\\') part

Filled-cases :
    (parts : List Text)
    → is_empty parts ≡ false
    → (part : Text) × (rest : List Text) × (parts ≡ part ∷ rest)
Filled-cases [] h = cc h
Filled-cases (part ∷ rest) h = (part, rest, refl)

module _ (sep : ℕ) where
  split_on-filled : (s : Text) → is_empty (split_on sep s) ≡ false
  unfolding split_on
  split_on-filled [] = refl
  split_on-filled (c ∷ s) = by_parts (split_on sep s) refl
    where
      by_parts :
          (parts : List Text) → split_on sep s ≡ parts → is_empty (split_on sep (c ∷ s)) ≡ false
      by_parts [] e = rw (split_on, e)
      by_parts (part ∷ parts) e = elim (Bool-cases (c == sep)) [
        | inl t ↦ rw (split_on, e, t)
        | inr t ↦ rw (split_on, e, t)
      ]

  split_on-All : (P : ℕ → Type 0) (s : Text) → All P s → All (All P) (split_on sep s)
  unfolding split_on
  split_on-All P [] a = (tt, tt)
  split_on-All P (c ∷ s) (p, ps) = by_parts (split_on sep s) refl (split_on-All P s ps)
    where
      by_parts :
          (parts : List Text)
          → split_on sep s ≡ parts
          → All (All P) parts
          → All (All P) (split_on sep (c ∷ s))
      by_parts [] e a = rw (split_on, e) ((p, tt), tt)
      by_parts (part ∷ parts) e (a, rest_all) = elim (Bool-cases (c == sep)) [
        | inl t ↦ rw (split_on, e, t) (tt, (a, rest_all))
        | inr t ↦ rw (split_on, e, t) ((p, a), rest_all)
      ]

  split_on-free : (s : Text) → All (All (λ c. c ≢ sep)) (split_on sep s)
  unfolding split_on
  split_on-free [] = (tt, tt)
  split_on-free (c ∷ s) = by_parts (split_on sep s) refl (split_on-free s)
    where
      by_parts :
          (parts : List Text)
          → split_on sep s ≡ parts
          → All (All (λ c. c ≢ sep)) parts
          → All (All (λ c. c ≢ sep)) (split_on sep (c ∷ s))
      by_parts [] e a = cc (split_on-filled s, e)
      by_parts (part ∷ parts) e (a, rest_all) = elim (Bool-cases (c == sep)) [
        | inl t ↦ rw (split_on, e, t) (tt, (a, rest_all))
        | inr t ↦ rw (split_on, e, t) (((λ q. ground (arith, q)), a), rest_all)
      ]

  -- A text without the separator is one part.
  split_on-part : (s : Text) → All (λ c. c ≢ sep) s → split_on sep s ≡ s ∷ []
  unfolding split_on
  split_on-part [] a = refl
  split_on-part (c ∷ s) (n, a) =
      let f : (c == sep) ≡ false = ground arith in rw (split_on-part s a) (rw f)

  split_on-append :
      (s rest : Text)
      → All (λ c. c ≢ sep) s
      → split_on sep (s ++ sep ∷ rest) ≡ s ∷ split_on sep rest
  unfolding split_on
  split_on-append [] rest a =
      let (part, parts, e) = Filled-cases (split_on sep rest) (split_on-filled rest) in
      rw e (rw (==-refl sep))
  split_on-append (c ∷ s) rest (n, a) =
      let f : (c == sep) ≡ false = ground arith in rw (split_on-append s rest a) (rw f)

  -- Splitting undoes joining.
  split_on-join_with :
      (part : Text) (parts : List Text)
      → All (All (λ c. c ≢ sep)) (part ∷ parts)
      → split_on sep (join_with (sep ∷ []) (part ∷ parts)) ≡ part ∷ parts
  unfolding join_with
  split_on-join_with part [] (a, rest_all) = split_on-part part a
  split_on-join_with part (next ∷ parts) (a, rest_all) =
      rw (split_on-append part (join_with (sep ∷ []) (next ∷ parts)) a)
        (rw (split_on-join_with next parts rest_all))

-- A text of which no character is the other has it nowhere.
has_part-free : (x : ℕ) (s : Text) → has_part s (x ∷ []) ≡ false → All (λ c. c ≢ x) s
unfolding has_part starts_with
has_part-free x [] h = tt
has_part-free x (c ∷ s) h = (differs, has_part-free x s (ground arith))
  where
    differs : c ≢ x
    differs e = ground arith

free-has_part : (x : ℕ) (s : Text) → All (λ c. c ≢ x) s → has_part s (x ∷ []) ≡ false
unfolding has_part starts_with
free-has_part x [] a = refl
free-has_part x (c ∷ s) (n, a) =
    let f : (c == x) ≡ false = ground arith in rw (f, free-has_part x s a)

plain_part :
    (part : Text)
    → is_skipped part ≡ false
    → is_refused part ≡ false
    → All (λ c. c ≢ b'/') part
    → All (λ c. c ≢ b'\\') part
    → IsPlain part
plain_part part s r a b = record {
  filled = λ e. filled e;
  no_dot = λ e. ground arith;
  no_parent = λ e. ground arith;
  no_colon = has_part-free b':' part (ground arith);
  no_slash = a;
  no_backslash = b;
}
  where
    filled : part ≢ []
    filled e = cc (ap is_skipped e, s)

-- What is plain is neither left out nor refused by the loop.
not_skipped : (part : Text) → IsPlain part → is_skipped part ≡ false
not_skipped [] p = absurd (p.filled refl)
not_skipped (c ∷ part) p = differs
  where
    differs : ((c ∷ part) == codes ".") ≡ false
    differs = ground (arith, p.no_dot)

allowed : (part : Text) → IsPlain part → is_refused part ≡ false
allowed part p =
    let f : (part == codes "..") ≡ false = ground (arith, p.no_parent) in
    rw (f, free-has_part b':' part p.no_colon)

-- What the loop keeps: parts of the path, each of them plain.
safe_parts-IsPlain :
    (parts kept : List Text)
    → All (All (λ c. c ≢ b'/')) parts
    → All (All (λ c. c ≢ b'\\')) parts
    → safe_parts parts ≡ returns kept
    → All IsPlain kept
unfolding safe_parts
safe_parts-IsPlain [] kept a b h = let same : [] ≡ kept = cc h in subst (All IsPlain) same tt
safe_parts-IsPlain (part ∷ parts) kept (a, more) (b, more') h =
    elim (Bool-cases (is_skipped part)) [
      | inl t ↦ safe_parts-IsPlain parts kept more more' (rw (safe_parts, t) at h)
      | inr t ↦
          let (ok, h1) = raise_if-returns _ package_rejected _ kept (rw (safe_parts, t) at h) in
          let (rest, p, h2) =
            >>=-returns (safe_parts parts) (λ rest. returns (part ∷ rest)) kept h1 in
          let same : part ∷ rest ≡ kept = cc h2 in
          subst (All IsPlain) same
            (plain_part part t ok a b, safe_parts-IsPlain parts rest more more' p)
    ]

-- Plain parts pass the loop as they are.
safe_parts-plain : (parts : List Text) → All IsPlain parts → safe_parts parts ≡ returns parts
unfolding safe_parts
safe_parts-plain [] a = refl
safe_parts-plain (part ∷ parts) (p, a) =
    rw (safe_parts, not_skipped part p, allowed part p) (rw (safe_parts-plain parts a))

with_slashes-free : (name : Text) → All (λ c. c ≢ b'\\') (with_slashes name)
with_slashes-free [] = tt
with_slashes-free (c ∷ name) = (changed, with_slashes-free name)
  where
    changed : slashed c ≢ b'\\'
    changed e = ground arith

with_slashes-fixed : (s : Text) → All (λ c. c ≢ b'\\') s → with_slashes s ≡ s
with_slashes-fixed [] a = refl
with_slashes-fixed (c ∷ s) (n, a) = rw (with_slashes-fixed s a) (ap (λ x. x ∷ s) same)
  where
    same : slashed c ≡ c
    same = ground arith

-- A relative path of plain names, of at most 240 characters, that the check leaves as it is.
pub record IsSafe (path : Text) : Type 0 where
  pub parts : List Text
  pub some_part : is_empty parts ≡ false
  pub joined : path ≡ join_with (codes "/") parts
  pub split : split_on b'/' path ≡ parts
  pub plain : All IsPlain parts
  pub bound : length path ≤ max_path
  pub fixed : safe_path path ≡ returns path

All-join_with :
    (P : ℕ → Type 0) (sep : Text) (parts : List Text)
    → All P sep
    → All (All P) parts
    → All P (join_with sep parts)
unfolding join_with
All-join_with P sep [] s a = tt
All-join_with P sep (part ∷ []) s (a, more) = a
All-join_with P sep (part ∷ next ∷ parts) s (a, more) =
    All-append P part (sep ++ join_with sep (next ∷ parts)) a (
      All-append P sep (join_with sep (next ∷ parts)) s (All-join_with P sep (next ∷ parts) s more))

-- A path of plain parts begins with neither separator.
relative :
    (sep : ℕ) (parts : List Text)
    → is_empty parts ≡ false
    → All IsPlain parts
    → All (All (λ c. c ≢ sep)) parts
    → starts_with (join_with (codes "/") parts) (sep ∷ []) ≡ false
unfolding starts_with join_with
relative sep [] e a b = cc
relative sep ([] ∷ parts) e (p, a) b = absurd (p.filled refl)
relative sep ((c ∷ part) ∷ []) e a ((n, b), more) = ground arith
relative sep ((c ∷ part) ∷ next ∷ parts) e a ((n, b), more) = ground arith

joined-IsSafe :
    (parts : List Text) (path : Text)
    → All IsPlain parts
    → join_parts parts ≡ returns path
    → IsSafe path
unfolding safe_path
joined-IsSafe [] path a h = cc h
joined-IsSafe (part ∷ parts) path a h =
    let (short, h2) =
      raise_if-returns (ltb max_path (length (join_with (codes "/") (part ∷ parts))))
        package_rejected (returns (join_with (codes "/") (part ∷ parts))) path h in
    let same : join_with (codes "/") (part ∷ parts) ≡ path = cc h2 in
    subst IsSafe same (record {
      parts = part ∷ parts;
      some_part = refl;
      joined = refl;
      split = whole;
      plain = a;
      bound = within short;
      fixed = again short;
    })
  where
    slash_free : All (All (λ c. c ≢ b'/')) (part ∷ parts)
    slash_free = All-mono (part ∷ parts) (λ x p. p.no_slash) a

    backslash_free : All (All (λ c. c ≢ b'\\')) (part ∷ parts)
    backslash_free = All-mono (part ∷ parts) (λ x p. p.no_backslash) a

    whole : split_on b'/' (join_with (codes "/") (part ∷ parts)) ≡ part ∷ parts
    whole = split_on-join_with b'/' part parts slash_free

    within :
        ltb max_path (length (join_with (codes "/") (part ∷ parts))) ≡ false
        → length (join_with (codes "/") (part ∷ parts)) ≤ max_path
    within s = ground arith

    unslashed :
        with_slashes (join_with (codes "/") (part ∷ parts)) ≡ join_with (codes "/") (part ∷ parts)
    unslashed =
        with_slashes-fixed (join_with (codes "/") (part ∷ parts)) (
          All-join_with (λ c. c ≢ b'\\') (codes "/") (part ∷ parts) ((λ e. cc e), tt)
            backslash_free)

    again :
        ltb max_path (length (join_with (codes "/") (part ∷ parts))) ≡ false
        → safe_path (join_with (codes "/") (part ∷ parts))
          ≡ returns (join_with (codes "/") (part ∷ parts))
    again s = rw (
      unslashed,
      relative b'/' (part ∷ parts) refl a slash_free,
      relative b'\\' (part ∷ parts) refl a backslash_free,
      whole,
      safe_parts-plain (part ∷ parts) a,
      s,
    )

-- The path of a member is relative, of plain names that are none of them `.`, `..` or with a drive's colon,
-- joined by single slashes, of at most 240 characters; and the check returns it unchanged when it is
-- given it again.
pub safe_path-IsSafe : (name path : Text) → safe_path name ≡ returns path → IsSafe path
unfolding safe_path
safe_path-IsSafe name path h =
    let (rel, h1) = raise_if-returns _ package_rejected _ path h in
    let (parts, p, h2) =
      >>=-returns (safe_parts (split_on b'/' (with_slashes name))) join_parts path h1 in
    joined-IsSafe parts path
      (safe_parts-IsPlain (split_on b'/' (with_slashes name)) parts
        (split_on-free b'/' (with_slashes name))
        (split_on-All b'/' (λ c. c ≢ b'\\') (with_slashes name) (with_slashes-free name)) p)
      h2
