-- ===== src/Actions.antt =====
-- Calls that change a state and may raise. The state comes back after a raise too: what was done outside
-- of the database stays done.
use document_intelligence_mv.Prelude.{
  ◌≡◌, refl, Bool, true, false, Option, none, some, inl, inr, ◌⊎◌, ◌∙◌, ap,
}
use document_intelligence_mv.Errors.{Error, Result, raises, returns}

abbrev pub Action : Type 0 → Type 0 → Type 0
Action X A = X → X × Result A

module _ {X A : Type 0} where
  abbrev pub pure : A → Action X A
  pure a x = (x, returns a)

  abbrev pub raise : Error → Action X A
  raise e x = (x, raises e)

  abbrev pub gets : (X → A) → Action X A
  gets f x = (x, returns (f x))

  -- What a call computes that keeps the state.
  abbrev pub from_result : Result A → Action X A
  from_result r x = (x, r)

  -- `if a is None: raise e`
  abbrev pub or_raise : Option A → Error → Action X A
  or_raise none e = raise e
  or_raise (some a) e = pure a

  abbrev handled : (Error → Action X A) → X × Result A → X × Result A
  handled handler (x, returns a) = (x, returns a)
  handled handler (x, raises e) = handler e x

  -- `try … except Exception`
  abbrev pub attempt : Action X A → (Error → Action X A) → Action X A
  attempt m handler x = handled handler (m x)

module _ {X : Type 0} where
  abbrev pub modify : (X → X) → Action X (Unit {0})
  modify f x = (f x, returns tt)

  abbrev pub stop_if : Bool → Error → Action X (Unit {0})
  stop_if false e = pure tt
  stop_if true e = raise e

  -- `if b: m`
  abbrev pub when : Bool → Action X (Unit {0}) → Action X (Unit {0})
  when false m = pure tt
  when true m = m

module _ {X A B : Type 0} where
  abbrev continued : (A → Action X B) → X × Result A → X × Result B
  continued rest (x, returns a) = rest a x
  continued rest (x, raises e) = (x, raises e)

  infixl 5 ◌>>=◌ ◌>>◌
  unfoldable pub ◌>>=◌ : Action X A → (A → Action X B) → Action X B
  ◌>>=◌ m rest x = continued rest (m x)

  abbrev pub ◌>>◌ : Action X A → Action X B → Action X B
  m >> rest = m >>= λ _. rest

  -- A block that returns has a first step that returns.
  pub bind-returns :
      (m : Action X A) (rest : A → Action X B) (x z : X) (b : B)
      → (m >>= rest) x ≡ (z, returns b)
      → (a : A) × (y : X) × (m x ≡ (y, returns a)) × (rest a y ≡ (z, returns b))
  unfolding ◌>>=◌
  bind-returns m rest x z b h = by_first (m x) refl h
    where
      by_first :
          (o : X × Result A)
          → m x ≡ o
          → continued rest o ≡ (z, returns b)
          → (a : A) × (y : X) × (m x ≡ (y, returns a)) × (rest a y ≡ (z, returns b))
      by_first (y, returns a) e k = (a, y, e, k)
      by_first (y, raises x) e k = cc k

module _ {X A : Type 0} where
  -- What a guarded call that returns comes from.
  pub attempt-returns :
      (m : Action X A) (handler : Error → Action X A) (x z : X) (a : A)
      → attempt m handler x ≡ (z, returns a)
      → (m x ≡ (z, returns a))
        ⊎ ((e : Error) × (y : X) × (m x ≡ (y, raises e)) × (handler e y ≡ (z, returns a)))
  attempt-returns m handler x z a h = by_outcome (m x) refl h
    where
      by_outcome :
          (o : X × Result A)
          → m x ≡ o
          → handled handler o ≡ (z, returns a)
          → (m x ≡ (z, returns a))
            ⊎ ((e : Error) × (y : X) × (m x ≡ (y, raises e)) × (handler e y ≡ (z, returns a)))
      by_outcome (y, returns b) e k = inl (e ∙ k)
      by_outcome (y, raises problem) e k = inr (problem, y, e, k)

module _ {X Y A : Type 0} where
  -- A call on a part of the state.
  abbrev pub on_part : (X → Y) → (Y → X → X) → Action Y A → Action X A
  on_part get put m x = let (y, r) = m (get x) in (put y x, r)

module _ {X : Type 0} where
  -- A block that returns has passed its check.
  pub stop_if-returns :
      (b : Bool) (e : Error) (x y : X) (u : Unit {0})
      → stop_if b e x ≡ (y, returns u)
      → (x ≡ y) × (b ≡ false)
  stop_if-returns false e x y u h = (ap (λ w. w.0) h, refl)
  stop_if-returns true e x y u h = cc h

module _ {X A : Type 0} where
  -- A call whose failure is raised under another name, and that returns, has not failed.
  pub attempt-raise :
      (m : Action X A) (e : Error) (x z : X) (a : A)
      → attempt m (λ _. raise e) x ≡ (z, returns a)
      → m x ≡ (z, returns a)
  attempt-raise m e x z a h = elim (attempt-returns m (λ _. raise e) x z a h) [
    | inl k ↦ k
    | inr (f, y, k, j) ↦ cc j
  ]

module _ {X A : Type 0} where
  pub pure-returns : (a b : A) (x y : X) → pure a x ≡ (y, returns b) → a ≡ b
  pure-returns a b x y h = cc h

  -- So has one whose failure is raised under a name that depends on it.
  pub attempt-renamed :
      (m : Action X A) (name : Error → Error) (x z : X) (a : A)
      → attempt m (λ e. raise (name e)) x ≡ (z, returns a)
      → m x ≡ (z, returns a)
  attempt-renamed m name x z a h = elim (attempt-returns m (λ e. raise (name e)) x z a h) [
    | inl k ↦ k
    | inr (f, y, k, j) ↦ cc j
  ]
