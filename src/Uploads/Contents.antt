-- ===== src/Uploads/Contents.antt =====
-- The declared type and the bytes of an upload in app/services/uploads.py: what its checks find.
use document_intelligence_mv.Prelude.{
  ℕ, ◌≡◌, refl, subst, Bool, true, false, not, Option, none, some, List, [], ◌∷◌, Text, is_empty,
  In, Bool-cases, inl, inr, arith, starts_with, ◌==◌, text_eq, eq_of_==, codes, contains,
  contains→In, In→contains, lstrip_by, take, All, ◌++◌, ◌∙◌, ap, ◌⊎◌, ◌||◌, ◌&&◌, nat_eq,
}
use document_intelligence_mv.Uploads.{
  Libraries, magic_of, contents_match, contradicts, declared_of, is_utf8_text, stripped_head,
}

-- A declared type says nothing, or one of the accepted types.
abbrev pub IsHarmless : Libraries → List Text → Option Text → Type 0
IsHarmless l accepted none = Unit
IsHarmless l accepted (some text) =
    (text ≡ [])
    ⊎ ((declared_of l text ≡ [])
        ⊎ ((declared_of l text ≡ codes "application/octet-stream")
            ⊎ In (declared_of l text) accepted))

-- The content begins with these bytes.
abbrev pub BeginsWith : Text → Text → Type 0
BeginsWith prefix content = (rest : Text) × (content ≡ prefix ++ rest)

-- What the bytes of a file of the extension are. Of `.txt`, `.md`, `.html` and `.htm` nothing is asked.
pub record HasBytes (l : Libraries) (extension content : Text) : Type 0 where
  pub pdf : extension ≡ codes ".pdf" → BeginsWith (codes "%PDF-") content
  pub zip :
      In extension (codes ".docx" ∷ codes ".pptx" ∷ codes ".xlsx" ∷ codes ".zip" ∷ [])
      → BeginsWith (b'P' ∷ b'K' ∷ 3 ∷ 4 ∷ []) content
  pub png :
      extension ≡ codes ".png" → BeginsWith (137 ∷ 80 ∷ 78 ∷ 71 ∷ 13 ∷ 10 ∷ 26 ∷ 10 ∷ []) content
  pub jpeg :
      In extension (codes ".jpg" ∷ codes ".jpeg" ∷ []) → BeginsWith (255 ∷ 216 ∷ 255 ∷ []) content
  pub xml :
      extension ≡ codes ".xml"
      → (blank : Text) × (rest : Text) × (content ≡ blank ++ (b'<' ∷ rest))
        × All (λ c. In c (239 ∷ 187 ∷ 191 ∷ 32 ∷ 9 ∷ 13 ∷ 10 ∷ [])) blank
  pub plain :
      In extension (codes ".csv" ∷ codes ".tsv" ∷ codes ".scl" ∷ codes ".awl" ∷ [])
      → (In 0 (take 8192 content) → ⊥) × (l.is_utf8 content ≡ true)

pub contradicts-IsHarmless :
    (l : Libraries) (accepted : List Text) (declared : Option Text)
    → contradicts l declared accepted ≡ false
    → IsHarmless l accepted declared
contradicts-IsHarmless l accepted none h = tt
contradicts-IsHarmless l accepted (some text) h = elim (Bool-cases (is_empty text)) [
  | inl t ↦ inl (empty_lem text t)
  | inr f ↦ inr (elim (Bool-cases (is_empty (declared_of l text))) [
    | inl t ↦ inl (empty_lem (declared_of l text) t)
    | inr g ↦ inr (elim (Bool-cases (declared_of l text == codes "application/octet-stream")) [
      | inl t ↦ inl (eq_of_== (declared_of l text) (codes "application/octet-stream") t)
      | inr o ↦ inr (contains→In (declared_of l text) accepted (ground arith))
    ])
  ])
]
  where
    empty_lem : (s : Text) → is_empty s ≡ true → s ≡ []
    empty_lem [] t = refl
    empty_lem (c ∷ s) t = cc t

starts_with-BeginsWith :
    (content prefix : Text) → starts_with content prefix ≡ true → BeginsWith prefix content
unfolding starts_with
starts_with-BeginsWith content [] h = (content, refl)
starts_with-BeginsWith [] (p ∷ ps) h = cc h
starts_with-BeginsWith (c ∷ s) (p ∷ ps) h =
    let (rest, e) = starts_with-BeginsWith s ps (ground arith) in
    let same : c ≡ p = ground arith in (rest, ap (λ x. x ∷ s) same ∙ ap (λ x. p ∷ x) e)

lstrip_by_split :
    (p : ℕ → Bool) (s : Text)
    → (blank : Text) × (s ≡ blank ++ lstrip_by p s) × All (λ c. p c ≡ true) blank
unfolding lstrip_by
lstrip_by_split p [] = ([], refl, tt)
lstrip_by_split p (c ∷ s) = elim (Bool-cases (p c)) [
  | inl t ↦
      let (blank, e, a) = lstrip_by_split p s in
      (c ∷ blank, rw (lstrip_by, t) (ap (λ x. c ∷ x) e), (t, a))
  | inr f ↦ ([], rw (lstrip_by, f) refl, tt)
]

module _ (l : Libraries) (extension content : Text)
    (signed : starts_with content (magic_of extension) ≡ true)
    (matching : contents_match l extension content ≡ true) where
  signed_as : (x : Text) → extension ≡ x → BeginsWith (magic_of x) content
  signed_as x e =
      subst (λ y. BeginsWith (magic_of y) content) e
        (starts_with-BeginsWith content (magic_of extension) signed)

  matching_as : (x : Text) → extension ≡ x → contents_match l x content ≡ true
  matching_as x e = subst (λ y. contents_match l y content ≡ true) e matching

  xml_lem :
      contents_match l (codes ".xml") content ≡ true
      → (blank : Text) × (rest : Text) × (content ≡ blank ++ (b'<' ∷ rest))
        × All (λ c. In c (239 ∷ 187 ∷ 191 ∷ 32 ∷ 9 ∷ 13 ∷ 10 ∷ [])) blank
  unfolding contents_match magic_of text_eq nat_eq starts_with stripped_head
  xml_lem h =
      let (blank, e, a) = lstrip_by_split is_blank content in
      let (rest, f) = opened (lstrip_by is_blank content) h in
      (blank, rest, e ∙ ap (λ x. blank ++ x) f, All_blank blank a)
    where
      is_blank : ℕ → Bool
      is_blank c = contains (239 ∷ 187 ∷ 191 ∷ 32 ∷ 9 ∷ 13 ∷ 10 ∷ []) c

      opened :
          (s : Text)
          → (starts_with s (codes "<?xml") || starts_with s (codes "<")) ≡ true
          → (rest : Text) × (s ≡ b'<' ∷ rest)
      opened [] t = cc t
      opened (c ∷ s) t = (s, ap (λ x. x ∷ s) (ground arith))

      All_blank :
          (blank : Text)
          → All (λ c. is_blank c ≡ true) blank
          → All (λ c. In c (239 ∷ 187 ∷ 191 ∷ 32 ∷ 9 ∷ 13 ∷ 10 ∷ [])) blank
      All_blank [] a = tt
      All_blank (c ∷ s) (t, a) =
          (contains→In c (239 ∷ 187 ∷ 191 ∷ 32 ∷ 9 ∷ 13 ∷ 10 ∷ []) t, All_blank s a)

  plain_lem :
      is_utf8_text l content ≡ true → (In 0 (take 8192 content) → ⊥) × (l.is_utf8 content ≡ true)
  unfolding is_utf8_text
  plain_lem h =
      let (u, v) = both (contains (take 8192 content) 0) (l.is_utf8 content) h in
      (λ i. cc (u, In→contains 0 (take 8192 content) i), v)
    where
      both : (u v : Bool) → (not u && v) ≡ true → (u ≡ false) × (v ≡ true)
      both false v t = (refl, t)
      both true v t = cc t

  pub contents_match-HasBytes : HasBytes l extension content
  unfolding magic_of contents_match text_eq nat_eq starts_with
  contents_match-HasBytes = record {
    pdf = signed_as (codes ".pdf");
    zip = by_package;
    png = signed_as (codes ".png");
    jpeg = by_picture;
    xml = λ e. xml_lem (matching_as (codes ".xml") e);
    plain = by_text;
  }
    where
      by_package :
          In extension (codes ".docx" ∷ codes ".pptx" ∷ codes ".xlsx" ∷ codes ".zip" ∷ [])
          → BeginsWith (b'P' ∷ b'K' ∷ 3 ∷ 4 ∷ []) content
      by_package (inl e) = signed_as (codes ".docx") e
      by_package (inr (inl e)) = signed_as (codes ".pptx") e
      by_package (inr (inr (inl e))) = signed_as (codes ".xlsx") e
      by_package (inr (inr (inr (inl e)))) = signed_as (codes ".zip") e
      by_package (inr (inr (inr (inr i)))) = elim i [ ]

      by_picture :
          In extension (codes ".jpg" ∷ codes ".jpeg" ∷ [])
          → BeginsWith (255 ∷ 216 ∷ 255 ∷ []) content
      by_picture (inl e) = signed_as (codes ".jpg") e
      by_picture (inr (inl e)) = signed_as (codes ".jpeg") e
      by_picture (inr (inr i)) = elim i [ ]

      by_text :
          In extension (codes ".csv" ∷ codes ".tsv" ∷ codes ".scl" ∷ codes ".awl" ∷ [])
          → (In 0 (take 8192 content) → ⊥) × (l.is_utf8 content ≡ true)
      by_text (inl e) = plain_lem (matching_as (codes ".csv") e)
      by_text (inr (inl e)) = plain_lem (matching_as (codes ".tsv") e)
      by_text (inr (inr (inl e))) = plain_lem (matching_as (codes ".scl") e)
      by_text (inr (inr (inr (inl e)))) = plain_lem (matching_as (codes ".awl") e)
      by_text (inr (inr (inr (inr i)))) = elim i [ ]
