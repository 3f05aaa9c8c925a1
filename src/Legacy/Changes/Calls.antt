-- ===== src/Legacy/Changes/Calls.antt =====
-- internal/legacy/layers/layer.go: the entities that `ChangeSet` calls back with.
use mysql_datalayer.Layer.Error.{done, ok}
use mysql_datalayer.Layer.Read.Iterator.{scanned}
use mysql_datalayer.Legacy.Changes.{
  Database, Repository, Rows, call_continuation, change_set, change_set_of, connected,
  continuation_entity, emit, emit_all, emit_rows, emit_scan, ensure_connection, go_on, queried,
  run_query, server_since, with_since, with_types,
}
use mysql_datalayer.Legacy.Conf.{Datalayer, TableMapping}
use mysql_datalayer.Legacy.Datasets.{Cell, build_row_type, get_table_mapping}
use mysql_datalayer.Legacy.Manager.{ConfigurationManager}
use mysql_datalayer.Legacy.Post.{Entity}
use mysql_datalayer.Legacy.Query.{DatasetRequest, build_table_query, new_query}
use mysql_datalayer.Legacy.Rows.{Raw}
use mysql_datalayer.Legacy.Rows.Build.{to_entity}
use mysql_datalayer.Prelude.{
  Bool-cases, List, Text, [], if◌then◌else◌, inl, inr, none, refl, some, ◌++◌, ◌∷◌, ◌≡◌, ◌⊎◌,
}

-- Calls with these entities, one after another.
abbrev pub call_all : {S : Type 0} → (Entity → S → S) → List Entity → S → S
call_all call_back [] s = s
call_all call_back (e ∷ es) s = call_all call_back es (call_back e s)

call_all-append :
    {S : Type 0} (call_back : Entity → S → S) (es fs : List Entity) (s : S)
    → call_all call_back (es ++ fs) s ≡ call_all call_back fs (call_all call_back es s)
call_all-append call_back [] fs s = refl
call_all-append call_back (e ∷ es) fs s = call_all-append call_back es fs (call_back e s)

-- The entity of the token, for a table whose changes are captured.
abbrev pub token_entities : TableMapping → Text → List Entity
token_entities t since = if t.cdc_enabled then continuation_entity since ∷ [] else []

module _ (other : Text → List Text → Text) (uuid : Text → Text) (d : Datalayer) (t : TableMapping)
    (columns types : List Text) (cells : List Cell) where
  -- The entities of the rows, in their order: none for a row that cannot be scanned or that has no
  -- identity, and otherwise the row's entity with the table's type.
  pub data Emits : List (List Cell → Text ⊎ List Raw) → List Entity → Type 0 where
    no_rows : Emits [] []
    unscanned :
        {scan : List Cell → Text ⊎ List Raw} {scans : List (List Cell → Text ⊎ List Raw)}
        {es : List Entity} (e : Text)
        → scan cells ≡ inl e
        → Emits scans es
        → Emits (scan ∷ scans) es
    dropped :
        {scan : List Cell → Text ⊎ List Raw} {scans : List (List Cell → Text ⊎ List Raw)}
        {es : List Entity} (row : List Raw)
        → scan cells ≡ inr row
        → to_entity other uuid d t row columns types ≡ ok none
        → Emits scans es
        → Emits (scan ∷ scans) es
    called :
        {scan : List Cell → Text ⊎ List Raw} {scans : List (List Cell → Text ⊎ List Raw)}
        {es : List Entity} (row : List Raw) (e : Entity)
        → scan cells ≡ inr row
        → to_entity other uuid d t row columns types ≡ ok (some e)
        → Emits scans es
        → Emits (scan ∷ scans) (with_types t.types e ∷ es)

  module _ {S : Type 0} (call_back : Entity → S → S) where
    emit_rows-calls :
        {scans : List (List Cell → Text ⊎ List Raw)} {es : List Entity}
        → Emits scans es
        → (s : S)
        → emit_rows call_back other uuid d t columns types cells scans s
          ≡ (call_all call_back es s, done)
    unfolding emit_rows emit_scan emit go_on
    emit_rows-calls no_rows s = refl
    emit_rows-calls (unscanned e scanned rest) s = rw scanned (emit_rows-calls rest s)
    emit_rows-calls (dropped row scanned mapped rest) s =
        rw (scanned, mapped) (emit_rows-calls rest s)
    emit_rows-calls (called row e scanned mapped rest) s =
        rw (scanned, mapped) (emit_rows-calls rest (call_back (with_types t.types e) s))

module _ {Conn S : Type 0} (database : Database Conn) (call_back : Entity → S → S)
    (other : Text → List Text → Text) (uuid : Text → Text) (cmgr : ConfigurationManager) where
  call_continuation-calls :
      (t : TableMapping) (since : Text) (s : S)
      → call_continuation database call_back other uuid cmgr t since s
        ≡ (call_all call_back (token_entities t since) s, done)
  unfolding call_continuation
  call_continuation-calls t since s = elim (Bool-cases t.cdc_enabled) [
    | inl enabled ↦ rw enabled refl
    | inr disabled ↦ rw disabled refl
  ]

  emit_all-calls :
      (t : TableMapping) (since : Text) (rows : Rows) (cells : List Cell) (es : List Entity) (s : S)
      → Emits other uuid cmgr.datalayer t rows.columns rows.types cells rows.scans es
      → emit_all database call_back other uuid cmgr t since rows (ok cells) s
        ≡ (call_all call_back (es ++ token_entities t since) s, done)
  unfolding emit_all go_on
  emit_all-calls t since rows cells es s emits =
      rw
        (
          emit_rows-calls other uuid cmgr.datalayer t rows.columns rows.types cells call_back emits
              s,
          call_all-append call_back es (token_entities t since) s,
        )
        (call_continuation-calls t since (call_all call_back es s))

  -- The dataset has a table, a connection to the database is there or can be made, the server gives
  -- its time, and the query of the dataset can be run and its rows be mapped. Then `ChangeSet`
  -- succeeds, and it calls back with the entities of the rows in their order, and behind them, if
  -- the changes of the table are captured, with the token of the server's time; it leaves out the
  -- rows that cannot be scanned and those without an identity.
  pub change_set-calls :
      (request : DatasetRequest) (t : TableMapping) (repo connected_repo : Repository Conn)
      (since : Text) (rows : Rows) (cells : List Cell) (es : List Entity) (s : S)
      → get_table_mapping cmgr.datalayer request.dataset_name ≡ some t
      → ensure_connection database cmgr repo ≡ (connected_repo, done)
      → server_since database connected_repo ≡ ok since
      → run_query database connected_repo (build_table_query other (new_query request t)) ≡ ok rows
      → build_row_type rows.columns rows.types ≡ ok cells
      → Emits other uuid cmgr.datalayer t rows.columns rows.types cells rows.scans es
      → change_set database call_back other uuid cmgr request repo s
        ≡ ((connected_repo, call_all call_back (es ++ token_entities t since) s), done)
  unfolding change_set change_set_of connected with_since queried
  change_set-calls request t repo connected_repo since rows cells es s found ensured timed ran typed
        emits =
      rw (found, ensured, timed, ran, typed, emit_all-calls t since rows cells es s emits) refl
