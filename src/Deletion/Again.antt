-- ===== src/Deletion/Again.antt =====
-- `delete_document` of app/services/deletion.py, called again for the same document.
use document_intelligence_mv.Prelude.{
  ℕ, ◌≡◌, refl, sym, ap, ◌∙◌, Bool, true, false, not, Option, none, some, List, [], ◌∷◌, select,
  update_where, Bool-cases, inl, inr, All-In, ◌==◌, nat_eq, arith, if◌then◌else◌,
}
use document_intelligence_mv.Errors.{returns}
use document_intelligence_mv.Models.{Document, is_live_document}
use document_intelligence_mv.Database.{Db}
use document_intelligence_mv.World.{World}
use document_intelligence_mv.Deletion.{
  Services, DeletionOutcome, is_its_chunk, is_its_profile, is_its_relation, is_its_job,
  drop_derived, mark_deleted, stamped, delete_document,
}
use document_intelligence_mv.Deletion.Gone.{
  deleted_tables, delete_document-tables, delete_document-IsGone,
}

select-twice : {A : Type 0} (p : A → Bool) (xs : List A) → select p (select p xs) ≡ select p xs
select-twice p [] = refl
select-twice p (x ∷ xs) = elim (Bool-cases (p x)) [
  | inl t ↦ rw (t, t, select-twice p xs) refl
  | inr f ↦ rw (f, select-twice p xs) refl
]

stamped_again : (now later : ℕ) (d : Document) → stamped later (stamped now d) ≡ stamped now d
stamped_again now later d = by_state d.deleted_at
  where
    by_state :
        (o : Option ℕ)
        → stamped later (stamped now (record d { deleted_at = o }))
          ≡ stamped now (record d { deleted_at = o })
    by_state none = refl
    by_state (some t) = refl

one_stamped :
    (document now later : ℕ) (d : Document) (b : Bool)
    → (d.id == document) ≡ b
    → (if (if b then stamped now d else d).id == document
        then stamped later (if b then stamped now d else d)
        else if b
        then stamped now d
        else d)
      ≡ (if b then stamped now d else d)
one_stamped document now later d true e =
    let own : ((stamped now d).id == document) ≡ true = ground arith in
    rw (own, stamped_again now later d) refl
one_stamped document now later d false e = rw e refl

stamped-twice :
    (document now later : ℕ) (ds : List Document)
    → update_where
        (λ d. d.id == document)
        (stamped later)
        (update_where (λ d. d.id == document) (stamped now) ds)
      ≡ update_where (λ d. d.id == document) (stamped now) ds
stamped-twice document now later [] = refl
stamped-twice document now later (d ∷ ds) =
    rw
      (
        one_stamped document now later d (d.id == document) refl,
        stamped-twice document now later ds,
      )
      refl

module _ {O S F : Type 0} (s : Services O S F) (now later tenant document : ℕ) where
  deleted_tables-twice :
      (db : Db F)
      → deleted_tables s later tenant document (deleted_tables s now tenant document db)
        ≡ deleted_tables s now tenant document db
  unfolding drop_derived mark_deleted
  deleted_tables-twice db =
      rw
        (
          select-twice (λ c. not (is_its_chunk tenant document c)) db.chunks,
          select-twice (λ p. not (is_its_profile tenant document p)) db.profiles,
          select-twice (λ r. not (is_its_relation tenant document r)) db.relations,
          select-twice (λ j. not (is_its_job tenant document j)) db.jobs,
          stamped-twice document now later db.documents,
        )
        refl

  -- A second deletion of the same document that returns an outcome says that the document was deleted already, and
  -- leaves every table as the first one has left it, the time of the deletion included.
  pub delete_document_again :
      (w w' w'' : World O S F) (o o' : DeletionOutcome)
      → delete_document s now tenant document w ≡ (w', returns (some o))
      → delete_document s later tenant document w' ≡ (w'', returns (some o'))
      → (w''.db ≡ w'.db) × (o'.already_deleted ≡ true)
  delete_document_again w w' w'' o o' first_run second_run =
      let (tables, _) = delete_document-tables s now tenant document w w' o first_run in
      let (tables', (d, i, same_id, flag)) =
        delete_document-tables s later tenant document w' w'' o' second_run in
      let gone = delete_document-IsGone s now tenant document w w' o first_run in
      let dead =
        All-In (λ (d : Document). d.id ≡ document → is_live_document d ≡ false) w'.db.documents
          gone.deleted i same_id in
      (
        sym tables'
            ∙ ap (deleted_tables s later tenant document) (sym tables)
            ∙ deleted_tables-twice w.db
            ∙ tables,
        sym flag ∙ ap not dead,
      )
