-- ===== src/Legacy/Post/Laws.antt =====
-- internal/legacy/layers/postlayer.go: the transaction of `PostEntities`.
use mysql_datalayer.Prelude.{
  ◌≡◌, refl, ap, ◌⊎◌, inl, inr, Option, none, some, List, [], ◌∷◌, Option-cases, Text,
}
use mysql_datalayer.Prelude.Dict.{Dict}
use mysql_datalayer.Layer.Error.{Outcome, done, failed, panicked}
use mysql_datalayer.Layer.Any.{Any}
use mysql_datalayer.Legacy.Conf.{PostMapping, FieldMapping}
use mysql_datalayer.Legacy.Post.{
  Entity, Call, begin_tx, rollback, commit, strip_props, statement_of, ordered_fields, executed,
  store_one, store_rest, store_all, commit_all, run_transaction,
}

module _ (walk : Dict Any → Dict Any) (answer : List Call → Option Text) (d : PostMapping) where
  -- The calls `after` are those of `before` and, on top, a statement for each entity in order, all of
  -- which the driver accepted.
  pub data Stored : List FieldMapping → List Entity → List Call → List Call → Type 0 where
    none_left : {fields : List FieldMapping} {calls : List Call} → Stored fields [] calls calls
    stored :
        {fields : List FieldMapping} {e : Entity} {es : List Entity} {before after : List Call}
        (single : Dict Any)
        → strip_props walk e ≡ some single
        → answer (statement_of d fields e single ∷ before) ≡ none
        → Stored fields es (statement_of d fields e single ∷ before) after
        → Stored fields (e ∷ es) before after

  -- The last call rolled back the statement before it, which the driver refused.
  abbrev pub RolledBack : List Call × Outcome Text → Type 0
  RolledBack r =
      (c : Call) × (before : List Call) × (x : Text) × (answer (c ∷ before) ≡ some x)
      × (r ≡ (rollback ∷ c ∷ before, failed x))

  -- The three outcomes of the loop.
  abbrev Cases : List FieldMapping → List Entity → List Call → List Call × Outcome Text → Type 0
  Cases fields es calls r =
      ((after : List Call) × Stored fields es calls after × (r ≡ (after, done)))
      ⊎ (RolledBack r ⊎ (r.1 ≡ panicked))

  Cases-stored :
      (fields : List FieldMapping) (e : Entity) (es : List Entity) (calls : List Call)
      (single : Dict Any) (r : List Call × Outcome Text)
      → strip_props walk e ≡ some single
      → answer (statement_of d fields e single ∷ calls) ≡ none
      → Cases fields es (statement_of d fields e single ∷ calls) r
      → Cases fields (e ∷ es) calls r
  Cases-stored fields e es calls single r s a (inl (after, rest, same)) =
      inl (after, stored single s a rest, same)
  Cases-stored fields e es calls single r s a (inr other) = inr other

  store_all-Cases :
      (fields : List FieldMapping) (es : List Entity) (calls : List Call)
      → Cases fields es calls (store_all walk answer d fields es calls)
  unfolding store_all store_one store_rest executed
  store_all-Cases fields [] calls = inl (calls, none_left, refl)
  store_all-Cases fields (e ∷ es) calls = elim (Option-cases (strip_props walk e)) [
    | inl missing ↦ rw missing (inr (inr refl))
    | inr (single, s) ↦
        rw s (elim (Option-cases (answer (statement_of d fields e single ∷ calls))) [
          | inl accepted ↦ rw accepted (
              Cases-stored fields e es calls single _ s accepted
                (store_all-Cases fields es (statement_of d fields e single ∷ calls)))
          | inr (x, refused) ↦
              rw refused (inr (inl (statement_of d fields e single, calls, x, refused, refl)))
        ])
  ]

  -- A transaction that was begun ends in one of three ways: with one accepted statement for each
  -- entity, in the order of the entities, and a commit behind them, and then the result is success
  -- whatever the driver answers to the commit; with the rollback of a refused statement, whose
  -- error is the result; or with a panic.
  pub run_transaction_cases :
      (es : List Entity) (calls : List Call)
      → answer (begin_tx ∷ calls) ≡ none
      → ((after : List Call) × Stored (ordered_fields d.field_mappings) es (begin_tx ∷ calls) after
          × (run_transaction walk answer d es calls ≡ (commit ∷ after, done)))
        ⊎ (RolledBack (run_transaction walk answer d es calls)
            ⊎ ((run_transaction walk answer d es calls).1 ≡ panicked))
  unfolding run_transaction commit_all
  run_transaction_cases es calls begun =
      rw (run_transaction, begun)
        (ended (store_all-Cases (ordered_fields d.field_mappings) es (begin_tx ∷ calls)))
    where
      kept :
          (r : List Call × Outcome Text) → r.1 ≡ panicked → (commit_all walk answer r).1 ≡ panicked
      kept (calls, done) h = cc
      kept (calls, failed e) h = h
      kept (calls, panicked) h = refl

      ended :
          {r : List Call × Outcome Text}
          → Cases (ordered_fields d.field_mappings) es (begin_tx ∷ calls) r
          → ((after : List Call) × Stored
                (ordered_fields d.field_mappings)
                es
                (begin_tx ∷ calls)
                after
              × (commit_all walk answer r ≡ (commit ∷ after, done)))
            ⊎ (RolledBack (commit_all walk answer r) ⊎ ((commit_all walk answer r).1 ≡ panicked))
      ended (inl (after, s, e)) = inl (after, s, ap (commit_all walk answer) e)
      ended (inr (inl (c, before, x, a, e))) =
          inr (inl (c, before, x, a, ap (commit_all walk answer) e))
      ended {r} (inr (inr p)) = inr (inr (kept r p))
