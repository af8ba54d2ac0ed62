-- ===== src/Prelude/Strings.antt =====
-- Text as its code points, and Python's text methods that the program calls.
use Prim.Native.Nat.{ℕ, ◌≤◌}
use Prim.Native.Char.{code}
use Prim.Native.String.{String}
use mathlib.Core.Path.{◌≡◌, refl, ap}
use mathlib.Core.Logic.{inl, inr}
use mathlib.Core.Bool.{Bool, true, false, ◌&&◌, ◌||◌}
use mathlib.Core.List.{List, [], ◌∷◌, ◌++◌}
use native.Mathlib.Omega.{arith}
use document_intelligence_mv.Prelude.Logic.{leb, if◌then◌else◌, ◌==◌, nat_eq, text_eq, Bool-cases}
use document_intelligence_mv.Prelude.Lists.{length}

abbrev pub Text : Type 0
Text = List ℕ

-- A literal of the source, by its code points.
abbrev pub codes : String → Text
codes String.[] = []
codes (String.◌∷◌ c s) = code c ∷ codes s

-- `not s`: the empty text is false.
abbrev pub is_empty {ℓ} : {A : Type ℓ} → List A → Bool
is_empty [] = true
is_empty (_ ∷ _) = false

-- `str.isspace` of one character: the code points that Python calls whitespace.
unfoldable pub is_space : ℕ → Bool
is_space c =
    (leb 9 c && leb c 13)
    || (leb 28 c && leb c 32)
    || c == 133
    || c == 160
    || c == 5760
    || (leb 8192 c && leb c 8202)
    || c == 8232
    || c == 8233
    || c == 8239
    || c == 8287
    || c == 12288

-- `s.lstrip()` by a test on characters.
unfoldable pub lstrip_by : (ℕ → Bool) → Text → Text
lstrip_by p [] = []
lstrip_by p (c ∷ s) = let rest = lstrip_by p s in if p c then rest else c ∷ s

-- `s.rstrip()` by a test on characters: a character goes if it and all behind it are to go.
unfoldable pub rstrip_by : (ℕ → Bool) → Text → Text
rstrip_by p [] = []
rstrip_by p (c ∷ s) = let rest = rstrip_by p s in if is_empty rest && p c then [] else c ∷ rest

-- `s.strip()`
unfoldable pub strip : Text → Text
unfolding lstrip_by rstrip_by is_space
strip s = rstrip_by is_space (lstrip_by is_space s)

-- `s.startswith(prefix)`
unfoldable pub starts_with : Text → Text → Bool
starts_with s [] = true
starts_with [] (p ∷ ps) = false
starts_with (c ∷ s) (p ∷ ps) = c == p && starts_with s ps

-- `s.endswith(suffix)`
unfoldable pub ends_with : Text → Text → Bool
ends_with [] suffix = is_empty suffix
ends_with (c ∷ s) suffix = (c ∷ s) == suffix || ends_with s suffix

-- `part in s`
unfoldable pub has_part : Text → Text → Bool
unfolding starts_with
has_part [] part = is_empty part
has_part (c ∷ s) part = starts_with (c ∷ s) part || has_part s part

-- `s.split(sep)` for one character: never the empty list.
unfoldable pub split_on : ℕ → Text → List Text
split_on sep [] = [] ∷ []
split_on sep (c ∷ s) = elim (split_on sep s) [
  | [] ↦ (c ∷ []) ∷ []
  | part ∷ parts ↦ if c == sep then [] ∷ part ∷ parts else (c ∷ part) ∷ parts
]

-- `sep.join(parts)` for a text.
unfoldable pub join_with : Text → List Text → Text
join_with sep [] = []
join_with sep (part ∷ []) = part
join_with sep (part ∷ next ∷ parts) = part ++ (sep ++ join_with sep (next ∷ parts))

pub lstrip_by_idem : (p : ℕ → Bool) (s : Text) → lstrip_by p (lstrip_by p s) ≡ lstrip_by p s
unfolding lstrip_by
lstrip_by_idem p [] = refl
lstrip_by_idem p (c ∷ s) = elim (Bool-cases (p c)) [
  | inl t ↦ rw t (lstrip_by_idem p s)
  | inr f ↦ rw f (rw f)
]

pub rstrip_by_idem : (p : ℕ → Bool) (s : Text) → rstrip_by p (rstrip_by p s) ≡ rstrip_by p s
unfolding rstrip_by
rstrip_by_idem p [] = refl
rstrip_by_idem p (c ∷ s) = elim (Bool-cases (is_empty (rstrip_by p s) && p c)) [
  | inl t ↦ rw t
  | inr f ↦ rw f (rw (rstrip_by_idem p s) (rw f))
]

length-lstrip_by : (p : ℕ → Bool) (s : Text) → length (lstrip_by p s) ≤ length s
unfolding lstrip_by
length-lstrip_by p [] = omega arith
length-lstrip_by p (c ∷ s) = ground (arith, length-lstrip_by p s)

-- What is left of a text begins with no stripped character, also after the right end is stripped.
rstrip_by-lstripped :
    (p : ℕ → Bool) (s : Text) → lstrip_by p s ≡ s → lstrip_by p (rstrip_by p s) ≡ rstrip_by p s
unfolding lstrip_by rstrip_by
rstrip_by-lstripped p [] h = refl
rstrip_by-lstripped p (c ∷ s) h = elim (Bool-cases (p c)) [
  | inl t ↦ absurd (omega (arith, ap {B = ℕ} length (rw t at h), length-lstrip_by p s))
  | inr f ↦ ground arith
]

-- Stripping twice is stripping once.
pub strip_idem : (s : Text) → strip (strip s) ≡ strip s
unfolding strip
strip_idem s =
    rw (rstrip_by-lstripped is_space (lstrip_by is_space s) (lstrip_by_idem is_space s))
      (rstrip_by_idem is_space (lstrip_by is_space s))
