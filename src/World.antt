-- ===== src/World.antt =====
-- What a job works on: the tables, the objects of the storage backend (app/providers/storage.py) and the vector
-- index, each of the last two in a state of its own. A transaction covers the tables alone. The time
-- stamp that the database sets when it updates a document is left out: nothing modelled reads it.
use document_intelligence_mv.Prelude.{
  ℕ, ◌≡◌, ap, subst, Bool, true, false, Option, none, some, Text, update_where, ◌==◌, nat_eq,
}
use document_intelligence_mv.Errors.{Error, Result, raises, returns}
use document_intelligence_mv.Models.{Document}
use document_intelligence_mv.Database.{Db}
use document_intelligence_mv.Actions.{
  Action, pure, raise, or_raise, stop_if, from_result, bind-returns, ◌>>=◌,
}

pub record World (O S F : Type 0) : Type 0 where
  pub db : Db F
  pub objects : O
  pub index : S

-- StorageBackend, over the state of its objects.
pub record StorageBackend (O : Type 0) : Type 0 where
  pub put : Text → Text → Text → Action O (Unit {0})  -- key, content, type
  pub get : Text → Action O Text
  pub delete : Text → Action O (Unit {0})

module _ {O S F : Type 0} where
  -- A call on the objects, and one on the index.
  abbrev with_objects : {A : Type 0} → World O S F → O × Result A → World O S F × Result A
  with_objects w (o, r) = (record w { objects = o }, r)

  abbrev with_index : {A : Type 0} → World O S F → S × Result A → World O S F × Result A
  with_index w (s, r) = (record w { index = s }, r)

  abbrev pub on_objects : {A : Type 0} → Action O A → Action (World O S F) A
  on_objects m w = with_objects w (m w.objects)

  abbrev pub on_index : {A : Type 0} → Action S A → Action (World O S F) A
  on_index m w = with_index w (m w.index)

  abbrev pub query : {A : Type 0} → (Db F → A) → Action (World O S F) A
  query f w = (w, returns (f w.db))

  abbrev pub execute : (Db F → Db F) → Action (World O S F) (Unit {0})
  execute f w = (record w { db = f w.db }, returns tt)

  abbrev with_tables : World O S F → Result (Db F) → World O S F × Result (Unit {0})
  with_tables w (raises e) = (w, raises e)
  with_tables w (returns db) = (record w { db = db }, returns tt)

  -- A statement that a constraint may refuse.
  abbrev pub execute_checked : (Db F → Result (Db F)) → Action (World O S F) (Unit {0})
  execute_checked f w = with_tables w (f w.db)

  -- The attributes of one document are assigned.
  abbrev pub assign : ℕ → (Document → Document) → Action (World O S F) (Unit {0})
  assign document f =
      execute (λ db. record db { documents = update_where (λ d. d.id == document) f db.documents })

  abbrev committed : {A : Type 0} → Db F → World O S F × Result A → World O S F × Result A
  committed before (w, returns a) = (w, returns a)
  committed before (w, raises e) = (record w { db = before }, raises e)

  -- `async with session.begin()`: an exception rolls the tables back, and passes on.
  abbrev pub in_transaction : {A : Type 0} → Action (World O S F) A → Action (World O S F) A
  in_transaction m w = committed w.db (m w)

  -- What a call that returns keeps of the tables.
  abbrev pub Keeps : {A : Type 0} → (Db F → Type 0) → Action (World O S F) A → Type 0
  Keeps {A} I m = (w w' : World O S F) (a : A) → m w ≡ (w', returns a) → I w.db → I w'.db

  module _ (I : Db F → Type 0) where
    pub Keeps-bind :
        {A B : Type 0} (m : Action (World O S F) A) (k : A → Action (World O S F) B)
        → Keeps I m
        → ((a : A) → Keeps I (k a))
        → Keeps I (m >>= k)
    Keeps-bind m k f g w z b h i =
        let (a, y, p, q) = bind-returns m k w z b h in g a y z b q (f w y a p i)

    pub Keeps-on_index : {A : Type 0} (m : Action S A) → Keeps I (on_index m)
    Keeps-on_index m w w' a h i = subst I (ap (λ x. x.0.db) h) i

    pub Keeps-on_objects : {A : Type 0} (m : Action O A) → Keeps I (on_objects m)
    Keeps-on_objects m w w' a h i = subst I (ap (λ x. x.0.db) h) i

    pub Keeps-query : {A : Type 0} (f : Db F → A) → Keeps I (query f)
    Keeps-query f w w' a h i = subst I (ap (λ x. x.0.db) h) i

    pub Keeps-execute : (f : Db F → Db F) → ((db : Db F) → I db → I (f db)) → Keeps I (execute f)
    Keeps-execute f g w w' a h i = subst I (ap (λ x. x.0.db) h) (g w.db i)

    pub Keeps-pure : {A : Type 0} (a : A) → Keeps I (pure a)
    Keeps-pure a w w' b h i = subst I (ap (λ x. x.0.db) h) i

    pub Keeps-raise : {A : Type 0} (e : Error) → Keeps {A = A} I (raise e)
    Keeps-raise e w w' b h i = cc h

    pub Keeps-or_raise : {A : Type 0} (o : Option A) (e : Error) → Keeps I (or_raise o e)
    Keeps-or_raise none e = Keeps-raise e
    Keeps-or_raise (some a) e = Keeps-pure a

    pub Keeps-stop_if : (b : Bool) (e : Error) → Keeps I (stop_if b e)
    Keeps-stop_if true e = Keeps-raise e
    Keeps-stop_if false e = Keeps-pure tt

    pub Keeps-from_result : {A : Type 0} (r : Result A) → Keeps I (from_result r)
    Keeps-from_result (raises e) = Keeps-raise e
    Keeps-from_result (returns a) = Keeps-pure a

module _ {O S F : Type 0} where
  pub execute_checked-returns :
      (f : Db F → Result (Db F)) (w w' : World O S F) (u : Unit {0})
      → execute_checked f w ≡ (w', returns u)
      → f w.db ≡ returns w'.db
  execute_checked-returns f w w' u h = by_tables (f w.db) h
    where
      by_tables : (r : Result (Db F)) → with_tables w r ≡ (w', returns u) → r ≡ returns w'.db
      by_tables (raises e) k = cc k
      by_tables (returns db) k = ap returns (ap (λ x. x.0.db) k)

  pub on_objects-returns :
      {A : Type 0} (m : Action O A) (w w' : World O S F) (a : A)
      → on_objects m w ≡ (w', returns a)
      → (m w.objects ≡ (w'.objects, returns a)) × (w.db ≡ w'.db)
  on_objects-returns m w w' a h = (ap (λ x. (x.0.objects, x.1)) h, ap (λ x. x.0.db) h)

  pub Keeps-execute_checked :
      (I : Db F → Type 0) (f : Db F → Result (Db F))
      → ((db db' : Db F) → f db ≡ returns db' → I db → I db')
      → Keeps {O = O} {S = S} I (execute_checked f)
  Keeps-execute_checked I f g w w' u h i = g w.db w'.db (execute_checked-returns f w w' u h) i
