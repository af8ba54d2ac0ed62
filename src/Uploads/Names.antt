-- ===== src/Uploads/Names.antt =====
-- `safe_filename` of app/services/uploads.py: the form of a stored file name.
use document_intelligence_mv.Prelude.{
  ℕ, suc, ◌≤◌, ◌≡◌, refl, Bool, true, false, [], ◌∷◌, Text, is_empty, length, ◌&&◌, length-take-le,
  take, if◌then◌else◌, lstrip_by, rstrip_by, All, All-take, Bool-cases, inl, inr, nat_eq,
}
use document_intelligence_mv.Uploads.{
  Libraries, is_name_char, sub_unsafe, is_dot, or_upload, basename, safe_filename,
}

abbrev pub NameChar : ℕ → Type 0
NameChar c = is_name_char c ≡ true

sub_unsafe-All : (run : Bool) (s : Text) → All NameChar (sub_unsafe run s)
unfolding sub_unsafe is_name_char nat_eq
sub_unsafe-All run [] = tt
sub_unsafe-All run (c ∷ s) = elim (Bool-cases (is_name_char c)) [
  | inl t ↦ rw (sub_unsafe, t) (t, sub_unsafe-All false s)
  | inr t ↦ rw (sub_unsafe, t) (dropped run (sub_unsafe-All true s))
]
  where
    dropped :
        (r : Bool)
        → All NameChar (sub_unsafe true s)
        → All NameChar (if r then sub_unsafe true s else b'_' ∷ sub_unsafe true s)
    dropped true a = a
    dropped false a = (refl, a)

lstrip_by-All : (P : ℕ → Type 0) (p : ℕ → Bool) (s : Text) → All P s → All P (lstrip_by p s)
unfolding lstrip_by
lstrip_by-All P p [] a = tt
lstrip_by-All P p (c ∷ s) (h, a) = elim (Bool-cases (p c)) [
  | inl t ↦ rw t (lstrip_by-All P p s a)
  | inr t ↦ rw t (h, a)
]

rstrip_by-All : (P : ℕ → Type 0) (p : ℕ → Bool) (s : Text) → All P s → All P (rstrip_by p s)
unfolding rstrip_by
rstrip_by-All P p [] a = tt
rstrip_by-All P p (c ∷ s) (h, a) = elim (Bool-cases (is_empty (rstrip_by p s) && p c)) [
  | inl t ↦ rw t tt
  | inr t ↦ rw t (h, rstrip_by-All P p s a)
]

take-filled : (n : ℕ) (s : Text) → is_empty s ≡ false → is_empty (take (suc n) s) ≡ false
take-filled n [] h = h
take-filled n (c ∷ s) h = refl

or_upload-filled : (base : Text) → is_empty (or_upload base) ≡ false
or_upload-filled [] = refl
or_upload-filled (c ∷ base) = refl

or_upload-All : (base : Text) → All NameChar base → All NameChar (or_upload base)
unfolding is_name_char nat_eq
or_upload-All [] a = (refl, (refl, (refl, (refl, (refl, (refl, tt))))))
or_upload-All (c ∷ base) a = a

-- A name of 1 to 200 letters, digits, dots, underscores and hyphens.
pub record IsName (name : Text) : Type 0 where
  pub filled : is_empty name ≡ false
  pub bound : length name ≤ 200
  pub chars : All NameChar name

-- Whatever name a client sends, and whatever Unicode's normal form makes of it, the name that is stored has 1
-- to 200 characters, all of them letters and digits of ASCII, dots, underscores and hyphens: it has no
-- separator and no control character.
pub safe_filename-IsName : (l : Libraries) (filename : Text) → IsName (safe_filename l filename)
unfolding safe_filename
safe_filename-IsName l filename = record {
  filled = take-filled 199 (or_upload base) (or_upload-filled base);
  bound = length-take-le 200 (or_upload base);
  chars = All-take NameChar 200 (or_upload base) (or_upload-All base clean);
}
  where
    subbed : Text
    subbed = sub_unsafe false (l.nfkd (basename filename))

    base : Text
    base = rstrip_by is_dot (lstrip_by is_dot subbed)

    clean : All NameChar base
    clean =
        rstrip_by-All NameChar is_dot (lstrip_by is_dot subbed)
          (lstrip_by-All NameChar is_dot subbed (sub_unsafe-All false (l.nfkd (basename filename))))
