-- ===== src/Qa/Grounding.antt =====
-- The sources of an answer of `ask` (app/services/qa.py), and where their ids lead.
use document_intelligence_mv.Prelude.{
  ℕ, ◌≤◌, ◌≡◌, ◌≢◌, refl, true, sym, ap, ◌∙◌, subst, Option, none, some, List, [], ◌∷◌, Text, strip,
  is_empty, length, All, All-In, All-of-In, In, Bool-cases, Option-cases, inl, inr, ◌==◌, text_eq,
  eq_of_==, Pairs,
}
use document_intelligence_mv.Errors.{Result, returns, >>=-returns}
use document_intelligence_mv.Floats.{Floats}
use document_intelligence_mv.Models.{Chunk}
use document_intelligence_mv.Database.{Db, IsKeyed}
use document_intelligence_mv.Providers.{EmbeddingProvider, RerankerProvider}
use document_intelligence_mv.Retrieval.{SearchHit, RerankerSettings, search}
use document_intelligence_mv.Retrieval.Isolation.{Shows, search-Shows}
use document_intelligence_mv.Lexical.{LexicalHit, resolve_source}
use document_intelligence_mv.Lexical.Isolation.{resolve_source-Quotes, resolve_source_complete}
use document_intelligence_mv.Qa.{
  GroundedAnswer, AskResult, nothing_found, answered, supplied, cited, ask_about, ask, prompt_of,
}

module _ {F : Type 0} where
  pub supplied-In :
      (hits : List (SearchHit F)) (s : Text) (h : SearchHit F)
      → supplied hits s ≡ some h
      → In h hits × (h.source_id ≡ s)
  unfolding supplied
  supplied-In [] s h e = cc
  supplied-In (x ∷ hits) s h e = elim (Option-cases (supplied hits s)) [
    | inl n ↦ elim (Bool-cases (x.source_id == s)) [
      | inl t ↦
          let same = some-same (rw (n, t) at e) in
          (inl (sym same), rw (← same) (eq_of_== x.source_id s t))
      | inr f ↦ absurd (none-some (rw (n, f) at e))
    ]
    | inr (y, n) ↦ let (i, p) = supplied-In hits s h (n ∙ (rw n at e)) in (inr i, p)
  ]
    where
      some-same : some x ≡ some h → x ≡ h
      some-same p = cc

      none-some : ◌≡◌ {A = Option (SearchHit F)} none (some h) → ⊥
      none-some p = cc

  -- A citation is a hit that was supplied and an id that the model named.
  pub cited-In :
      (hits : List (SearchHit F)) (ids : List Text) (h : SearchHit F)
      → In h (cited hits ids)
      → In h hits × In h.source_id ids
  unfolding cited
  cited-In hits [] h i = elim i [ ]
  cited-In hits (s ∷ ids) h i = elim (Option-cases (supplied hits s)) [
    | inl n ↦ let (j, k) = cited-In hits ids h (rw (cited, n) at i) in (j, inr k)
    | inr (x, n) ↦ head x n (cited-In hits ids h) (rw (cited, n) at i)
  ]
    where
      head :
          (x : SearchHit F)
          → supplied hits s ≡ some x
          → (In h (cited hits ids) → In h hits × In h.source_id ids)
          → In h (x ∷ cited hits ids)
          → In h hits × In h.source_id (s ∷ ids)
      head x n rest (inl e) =
          let (j, p) = supplied-In hits s x n in (rw e j, inl ((ap (λ y. y.source_id) e) ∙ p))
      head x n rest (inr k) = let (j, p) = rest k in (j, inr p)

-- A source id stands for one chunk of its tenant.
pub source_unique :
    (cs : List Chunk) (a b : Chunk)
    → Pairs (λ a b. b.tenant_id ≡ a.tenant_id → b.source_id ≢ a.source_id) cs
    → In a cs
    → In b cs
    → b.tenant_id ≡ a.tenant_id
    → b.source_id ≡ a.source_id
    → a ≡ b
source_unique [] a b k i j t e = elim i [ ]
source_unique (c ∷ cs) a b (k, ks) (inl p) (inl q) t e = p ∙ sym q
source_unique (c ∷ cs) a b (k, ks) (inl p) (inr j) t e = absurd (
    All-In (λ x. x.tenant_id ≡ c.tenant_id → x.source_id ≢ c.source_id) cs k j
      (t ∙ ap (λ x. x.tenant_id) p) (e ∙ ap (λ x. x.source_id) p))
source_unique (c ∷ cs) a b (k, ks) (inr i) (inl q) t e = absurd (
    All-In (λ x. x.tenant_id ≡ c.tenant_id → x.source_id ≢ c.source_id) cs k i
      (sym t ∙ ap (λ x. x.tenant_id) q) (sym e ∙ ap (λ x. x.source_id) q))
source_unique (c ∷ cs) a b (k, ks) (inr i) (inr j) t e = source_unique cs a b ks i j t e

module _ (𝓕 : Floats) {V : Type 0} (db : Db 𝓕.Float) (e : EmbeddingProvider V) (tenant : ℕ) where
  -- A citation that can be followed: it resolves to a passage of the same text.
  abbrev pub Resolves : SearchHit 𝓕.Float → Type 0
  Resolves h =
      (q : LexicalHit 𝓕.Float) × (resolve_source 𝓕 db tenant h.document_id h.source_id ≡ some q)
      × (q.text ≡ h.text)
      × (q.chunk_id ≡ h.chunk_id)

  Shows→Resolves : (h : SearchHit 𝓕.Float) → IsKeyed db → Shows db e tenant h → Resolves h
  Shows→Resolves h k s =
      let (q, r) =
        resolve_source_complete 𝓕 db tenant s.chunk s.document s.chunk_stored s.document_stored
          s.of_tenant s.of_document s.live in
      let (v, d, x) = resolve_source-Quotes 𝓕 db tenant s.chunk.document_id s.chunk.source_id q r in
      let one =
        source_unique db.chunks s.chunk v.chunk k.source_ids s.chunk_stored v.chunk_stored
          (v.of_tenant ∙ sym s.of_tenant) (sym (ap (λ y. y.source_id) v.same) ∙ x) in
      (
        q,
        rw (ap (λ y. y.document_id) s.same, ap (λ y. y.source_id) s.same) r,
        ap (λ y. y.text) v.same
            ∙ (sym (ap (λ (c : Chunk). c.text) one) ∙ sym (ap (λ y. y.text) s.same)),
        ap (λ y. y.chunk_id) v.same
            ∙ (sym (ap (λ (c : Chunk). c.id) one) ∙ sym (ap (λ y. y.chunk_id) s.same)),
      )

  -- How `ask` comes to an answer, with what the search has found.
  pub data Grounded (llm : Text → Result GroundedAnswer) (question : Text) (limit : ℕ)
      (found : Result (List (SearchHit 𝓕.Float))) : AskResult 𝓕.Float → Type 0 where
    blank : question ≡ [] → Grounded llm question limit found nothing_found
    unanswered : found ≡ returns [] → Grounded llm question limit found nothing_found
    replied :
        (hits : List (SearchHit 𝓕.Float)) (reply : GroundedAnswer)
        → found ≡ returns hits
        → All (Shows db e tenant) hits
        → length hits ≤ limit
        → llm (prompt_of hits question) ≡ returns reply
        → Grounded llm question limit found (answered hits reply)

  Grounded→Resolves :
      (llm : Text → Result GroundedAnswer) (question : Text) (limit : ℕ)
      (found : Result (List (SearchHit 𝓕.Float))) (x : AskResult 𝓕.Float)
      → IsKeyed db
      → Grounded llm question limit found x
      → All (λ h. Shows db e tenant h × Resolves h) x.sources
  Grounded→Resolves llm question limit found x k (blank b) = tt
  Grounded→Resolves llm question limit found x k (unanswered f) = tt
  Grounded→Resolves llm question limit found x k (replied hits reply f shows short p) =
      All-of-In (λ h. Shows db e tenant h × Resolves h) (cited hits reply.source_ids)
        (λ h i.
          let (j, m) = cited-In hits reply.source_ids h i in
          let y = All-In (Shows db e tenant) hits shows j in (y, Shows→Resolves h k y))

  module _ (s : RerankerSettings)
      (nearest : ℕ → V → ℕ → Option (List ℕ) → Result (List (ℕ × 𝓕.Float)))
      (llm : Text → Result GroundedAnswer) (r : Option (RerankerProvider 𝓕.Float)) (raw : Text)
      (limit : ℕ) (document_ids : Option (List ℕ)) (result : AskResult 𝓕.Float) where
    -- What the search of a question has found.
    abbrev pub found_for : Result (List (SearchHit 𝓕.Float))
    found_for = search 𝓕 s nearest db e r tenant (strip raw) limit document_ids

    pub ask-Grounded :
        ask 𝓕 s nearest llm db e r tenant raw limit document_ids ≡ returns result
        → Grounded llm (strip raw) limit found_for result
    unfolding ask
    ask-Grounded h = elim (Bool-cases (is_empty (strip raw))) [
      | inl t ↦
          subst (Grounded llm (strip raw) limit found_for) (same-nil (rw t at h))
            (blank (empty_lem (strip raw) t))
      | inr t ↦
          let (hits, p, k) =
            >>=-returns (search 𝓕 s nearest db e r tenant (strip raw) limit document_ids)
              (ask_about llm (strip raw)) result (rw t at h) in
          let (shows, short) =
            search-Shows 𝓕 db e tenant s nearest r (strip raw) limit document_ids hits p in
          by_hits hits p shows short k
    ]
      where
        same-nil :
            ◌≡◌ {A = Result (AskResult 𝓕.Float)} (returns nothing_found) (returns result)
            → nothing_found ≡ result
        same-nil p = cc

        empty_lem : (x : Text) → is_empty x ≡ true → x ≡ []
        empty_lem [] t = refl
        empty_lem (c ∷ x) t = cc t

        by_hits :
            (hits : List (SearchHit 𝓕.Float))
            → found_for ≡ returns hits
            → All (Shows db e tenant) hits
            → length hits ≤ limit
            → ask_about llm (strip raw) hits ≡ returns result
            → Grounded llm (strip raw) limit found_for result
        by_hits [] f shows short k =
            subst (Grounded llm (strip raw) limit found_for) (same-nil k) (unanswered f)
        by_hits (x ∷ xs) f shows short k =
            let (reply, p, q) =
              >>=-returns (llm (prompt_of (x ∷ xs) (strip raw)))
                (λ reply. returns (answered (x ∷ xs) reply)) result k in
            subst (Grounded llm (strip raw) limit found_for) (cc q)
              (replied (x ∷ xs) reply f shows short p)

    -- With ids and source ids unique in the tables, every source of an answer is a current passage of the
    -- tenant's live documents, and its source id resolves to that very chunk with the same text.
    pub ask-Resolves :
        IsKeyed db
        → ask 𝓕 s nearest llm db e r tenant raw limit document_ids ≡ returns result
        → All (λ h. Shows db e tenant h × Resolves h) result.sources
    ask-Resolves k h = Grounded→Resolves llm (strip raw) limit found_for result k (ask-Grounded h)
