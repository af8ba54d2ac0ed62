-- ===== src/Relations/Overlap.antt =====
-- `_overlap` of app/services/relations.py, against the intersection of two lists of texts.
use document_intelligence_mv.Prelude.{
  ◌≡◌, ◌≢◌, ◌↔◌, ◌⊎◌, refl, sym, ap, ◌∙◌, subst, Bool, true, false, not, ◌&&◌, arith, List, [], ◌∷◌,
  Text, All, All-mono, Pairs, In, contains, is_empty, if◌then◌else◌, Bool-cases, inl, inr, strip,
  strip_idem, text_eq, All-In,
}
use document_intelligence_mv.Relations.{folded, lowered_set, shared_from, overlap}

module _ (lower : Text → Text) where
  -- Some text of the list reads as `k`.
  abbrev pub Reads : Text → List Text → Type 0
  Reads k values = (v : Text) × In v values × (folded lower v ≡ k)

  is_hit : List Text → List Text → Text → Bool
  is_hit right seen v =
      not (is_empty (folded lower v))
      && (contains right (folded lower v) && not (contains seen (folded lower v)))

  shared_from-cons :
      (right seen : List Text) (v : Text) (vs : List Text)
      → shared_from lower right seen (v ∷ vs) ≡ (
          if is_hit right seen v
          then strip v ∷ shared_from lower right (folded lower v ∷ seen) vs
          else shared_from lower right seen vs)
  unfolding shared_from is_hit
  shared_from-cons right seen v vs = ground arith

  -- What is shared reads as a key of both sides that was not seen before.
  Fresh : List Text → List Text → Text → Type 0
  Fresh right seen s =
      (folded lower s ≢ [])
      × (contains right (folded lower s) ≡ true)
      × (contains seen (folded lower s) ≡ false)

  Fresh-strip :
      (right seen : List Text) (v : Text) → is_hit right seen v ≡ true → Fresh right seen (strip v)
  unfolding is_hit Fresh
  Fresh-strip right seen v h = rw strip_idem (λ e. ground arith, ground arith, ground arith)

  Fresh-later :
      (right seen : List Text) (k s : Text) → Fresh right (k ∷ seen) s → Fresh right seen s
  unfolding Fresh
  Fresh-later right seen k s (a, b, c) = (a, b, ground arith)

  Fresh-keyed : (right seen : List Text) (s : Text) → Fresh right seen s → folded lower s ≢ []
  unfolding Fresh
  Fresh-keyed right seen s f = f.0

  shared_from-Fresh :
      (right seen vs : List Text) → All (Fresh right seen) (shared_from lower right seen vs)
  unfolding shared_from
  shared_from-Fresh right seen [] = tt
  shared_from-Fresh right seen (v ∷ vs) =
      rw shared_from-cons (elim (Bool-cases (is_hit right seen v)) [
        | inl t ↦ rw t (
          Fresh-strip right seen v t,
          All-mono (shared_from lower right (folded lower v ∷ seen) vs)
              (λ s f. Fresh-later right seen (folded lower v) s f)
              (shared_from-Fresh right (folded lower v ∷ seen) vs),
        )
        | inr t ↦ rw t (shared_from-Fresh right seen vs)
      ])

  shared_from-Pairs :
      (right seen vs : List Text)
      → Pairs (λ a b. folded lower b ≢ folded lower a) (shared_from lower right seen vs)
  unfolding shared_from
  shared_from-Pairs right seen [] = tt
  shared_from-Pairs right seen (v ∷ vs) =
      rw shared_from-cons (elim (Bool-cases (is_hit right seen v)) [
        | inl t ↦ rw t (
          All-mono (shared_from lower right (folded lower v ∷ seen) vs) (λ s f. apart v s f)
              (shared_from-Fresh right (folded lower v ∷ seen) vs),
          shared_from-Pairs right (folded lower v ∷ seen) vs,
        )
        | inr t ↦ rw t (shared_from-Pairs right seen vs)
      ])
    where
      apart :
          (x s : Text)
          → Fresh right (folded lower x ∷ seen) s
          → folded lower s ≢ folded lower (strip x)
      apart x s f = unfold Fresh in rw strip_idem (λ e. ground arith)

  -- A key that both sides have and that the text's own key is, was seen if the text is no hit.
  missed_was_seen :
      (right seen : List Text) (x k : Text)
      → k ≢ []
      → contains right k ≡ true
      → folded lower x ≡ k
      → is_hit right seen x ≡ false
      → contains seen k ≡ true
  unfolding is_hit
  missed_was_seen right seen x k n h e t =
      let t' : not (is_empty k) && (contains right k && not (contains seen k)) ≡ false =
        rw e at t in
      ground arith

  Reads-head : (x k : Text) (rest : List Text) → folded lower x ≡ k → Reads k (strip x ∷ rest)
  Reads-head x k rest e = (strip x, inl refl, ap lower (strip_idem x) ∙ e)

  Reads-cons : {k : Text} (x : Text) (rest : List Text) → Reads k rest → Reads k (x ∷ rest)
  Reads-cons x rest (v, i, e) = (v, inr i, e)

  shared_from_complete :
      (right seen vs : List Text) (k : Text)
      → k ≢ []
      → contains right k ≡ true
      → Reads k vs
      → (contains seen k ≡ true) ⊎ Reads k (shared_from lower right seen vs)
  shared_from_complete right seen [] k n h (v, i, e) = elim i [ ]
  shared_from_complete right seen (x ∷ vs) k n h (v, i, e) =
      rw shared_from-cons (elim (Bool-cases (is_hit right seen x)) [
        | inl t ↦
            rw t (taken (λ r. shared_from_complete right (folded lower x ∷ seen) vs k n h r) i)
        | inr t ↦ rw t (passed t (λ r. shared_from_complete right seen vs k n h r) i)
      ])
    where
      taken :
          (Reads k vs
            → (contains (folded lower x ∷ seen) k ≡ true)
              ⊎ Reads k (shared_from lower right (folded lower x ∷ seen) vs))
          → In v (x ∷ vs)
          → (contains seen k ≡ true)
            ⊎ Reads k (strip x ∷ shared_from lower right (folded lower x ∷ seen) vs)
      taken rest (inl p) = inr (Reads-head x k _ (ap (folded lower) (sym p) ∙ e))
      taken rest (inr j) = elim (rest (v, j, e)) [
        | inr r ↦ inr (Reads-cons (strip x) (shared_from lower right (folded lower x ∷ seen) vs) r)
        | inl c ↦ elim (text_eq.dec k (folded lower x)) [
          | yes p ↦ inr (Reads-head x k _ (sym p))
          | no q ↦ inl (ground arith)
        ]
      ]

      passed :
          is_hit right seen x ≡ false
          → (Reads k vs → (contains seen k ≡ true) ⊎ Reads k (shared_from lower right seen vs))
          → In v (x ∷ vs)
          → (contains seen k ≡ true) ⊎ Reads k (shared_from lower right seen vs)
      passed t rest (inl p) =
          inl (missed_was_seen right seen x k n h (ap (folded lower) (sym p) ∙ e) t)
      passed t rest (inr j) = rest (v, j, e)

  shared_from_sound :
      (right seen vs : List Text) (s : Text)
      → In s (shared_from lower right seen vs)
      → Reads (folded lower s) vs
  unfolding shared_from
  shared_from_sound right seen [] s i = elim i [ ]
  shared_from_sound right seen (v ∷ vs) s i = elim (Bool-cases (is_hit right seen v)) [
    | inl t ↦
        taken (shared_from_sound right (folded lower v ∷ seen) vs s)
          (hit t (subst (In s) (shared_from-cons right seen v vs) i))
    | inr t ↦ Reads-cons v vs (
        shared_from_sound right seen vs s
          (miss t (subst (In s) (shared_from-cons right seen v vs) i)))
  ]
    where
      hit :
          is_hit right seen v ≡ true
          → In s (
              if is_hit right seen v
              then strip v ∷ shared_from lower right (folded lower v ∷ seen) vs
              else shared_from lower right seen vs)
          → In s (strip v ∷ shared_from lower right (folded lower v ∷ seen) vs)
      hit t j = rw t at j

      miss :
          is_hit right seen v ≡ false
          → In s (
              if is_hit right seen v
              then strip v ∷ shared_from lower right (folded lower v ∷ seen) vs
              else shared_from lower right seen vs)
          → In s (shared_from lower right seen vs)
      miss t j = rw t at j

      taken :
          (In s (shared_from lower right (folded lower v ∷ seen) vs) → Reads (folded lower s) vs)
          → In s (strip v ∷ shared_from lower right (folded lower v ∷ seen) vs)
          → Reads (folded lower s) (v ∷ vs)
      taken rest (inl p) = (v, inl refl, sym (ap (folded lower) p ∙ ap lower (strip_idem v)))
      taken rest (inr j) = Reads-cons v vs (rest j)

  -- The set `lowered`: the keys of the texts that are not blank.
  lowered_set→Reads :
      (vs : List Text) (k : Text) → contains (lowered_set lower vs) k ≡ true → Reads k vs
  unfolding lowered_set
  lowered_set→Reads [] k h = cc
  lowered_set→Reads (v ∷ vs) k h = elim (text_eq.dec k (folded lower v)) [
    | yes p ↦ (v, inl refl, sym p)
    | no q ↦ Reads-cons v vs (lowered_set→Reads vs k (ground arith))
  ]

  Reads→lowered_set :
      lower [] ≡ []
      → (vs : List Text) (k v : Text) → k ≢ []
      → In v vs
      → folded lower v ≡ k
      → contains (lowered_set lower vs) k ≡ true
  unfolding lowered_set
  Reads→lowered_set z [] k v n i e = elim i [ ]
  Reads→lowered_set z (x ∷ vs) k v n (inl p) e = ground (
    arith,
    z,
    not_blank (strip x) (λ q. n (sym e ∙ ap (folded lower) p ∙ ap lower q ∙ z)),
    sym e ∙ ap (folded lower) p,
  )
    where
      not_blank : (s : Text) → s ≢ [] → is_empty s ≡ false
      not_blank [] m = absurd (m refl)
      not_blank (c ∷ s) m = refl
  Reads→lowered_set z (x ∷ vs) k v n (inr j) e = ground (arith, Reads→lowered_set z vs k v n j e)

  shared_from-nil : (seen left : List Text) → shared_from lower [] seen left ≡ []
  unfolding shared_from
  shared_from-nil seen [] = refl
  shared_from-nil seen (v ∷ vs) = ground (arith, shared_from-nil seen vs)

  overlap_lem :
      (left right : List Text)
      → overlap lower left right ≡ shared_from lower (lowered_set lower right) [] left
  unfolding overlap
  overlap_lem [] right = refl
  overlap_lem (v ∷ vs) [] = sym (shared_from-nil [] (v ∷ vs))
  overlap_lem (v ∷ vs) (w ∷ ws) = refl

  -- A key other than the empty text is shared exactly when both lists have a text that reads so; no
  -- two texts that are reported read alike, and none of them reads as the empty text. (`str.lower` maps
  -- the empty text to itself.)
  pub overlap-Reads :
      lower [] ≡ []
      → (left right : List Text)
      → ((k : Text) → k ≢ [] → Reads k (overlap lower left right) ↔ (Reads k left × Reads k right))
        × Pairs (λ a b. folded lower b ≢ folded lower a) (overlap lower left right)
        × All (λ s. folded lower s ≢ []) (overlap lower left right)
  overlap-Reads z left right = rw overlap_lem (
    λ k n. (to k n, from k n),
    shared_from-Pairs (lowered_set lower right) [] left,
    All-mono (shared_from lower (lowered_set lower right) [] left)
        (Fresh-keyed (lowered_set lower right) [])
        (shared_from-Fresh (lowered_set lower right) [] left),
  )
    where
      to :
          (k : Text)
          → k ≢ []
          → Reads k (shared_from lower (lowered_set lower right) [] left)
          → Reads k left × Reads k right
      to k n (s, i, e) = (
        subst (λ j. Reads j left) e (shared_from_sound (lowered_set lower right) [] left s i),
        lowered_set→Reads right k (
            subst (λ j. contains (lowered_set lower right) j ≡ true) e
              (unfold Fresh in
                (All-In (Fresh (lowered_set lower right) [])
                  (shared_from lower (lowered_set lower right) [] left)
                  (shared_from-Fresh (lowered_set lower right) [] left) i).1)),
      )

      from :
          (k : Text)
          → k ≢ []
          → Reads k left × Reads k right
          → Reads k (shared_from lower (lowered_set lower right) [] left)
      from k n (l, (w, j, f)) =
          elim (shared_from_complete (lowered_set lower right) [] left k n
            (Reads→lowered_set z right k w n j f) l) [ inl c ↦ absurd (cc) | inr r ↦ r ]
