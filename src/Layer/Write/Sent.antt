-- ===== src/Layer/Write/Sent.antt =====
-- internal/layer/write.go: the SQL that a flush sends behind a run of writes.
use mysql_datalayer.Layer.Any.{Any}
use mysql_datalayer.Layer.Write.Flush.{Order}
use mysql_datalayer.Layer.Write.Settings.{Settings, settings}
use mysql_datalayer.Layer.Write.Sql.{delete_transaction, insert_transaction}
use mysql_datalayer.Layer.Write.Transactions.{calls_with_deletes, calls_with_inserts}
use mysql_datalayer.Layer.Write.Writer.{
  Call, Driver, EntityInsert, MysqlWriter, exec, insert_strings,
}
use mysql_datalayer.Prelude.{
  List, Option, Text, [], ap, arith, eq_iff, eq_refl, false, if◌then◌else◌, is_empty, map, none,
  refl, some, ◌==◌, ◌∷◌, ◌≡◌,
}
use mysql_datalayer.Prelude.Dict.{Dict, NodupKeys, lookup}

-- A walk over a map visits each entry once.
abbrev pub IsWalk : Order → Type 0
IsWalk order =
    (calls : List Call) (m : Dict EntityInsert)
    → NodupKeys m
    → NodupKeys (order calls m) × ((k : Text) → lookup k (order calls m) ≡ lookup k m)

-- Statements, each with the id of its row.
abbrev pub Rows : Type 0
Rows = List (Text × Text)

unfoldable pub rows_of : Dict EntityInsert → Rows
rows_of [] = []
rows_of ((k, p) ∷ m) = (k, p.insert_string) ∷ rows_of m

abbrev pub statements : Rows → List Text
statements rows = map (λ (r : Text × Text). r.1) rows

-- The statements of the rows with an id.
unfoldable pub statements_of : Text → Rows → List Text
statements_of k [] = []
statements_of k ((j, s) ∷ rows) =
    let rest = statements_of k rows in if j == k then s ∷ rest else rest

statements-rows_of : (m : Dict EntityInsert) → insert_strings m ≡ statements (rows_of m)
unfolding insert_strings rows_of
statements-rows_of [] = refl
statements-rows_of ((k, p) ∷ m) = ap (λ l. p.insert_string ∷ l) (statements-rows_of m)

is_empty-rows_of : (m : Dict EntityInsert) → is_empty (rows_of m) ≡ is_empty m
unfolding rows_of
is_empty-rows_of [] = refl
is_empty-rows_of ((k, p) ∷ m) = refl

-- Maps with the same entries are both empty or both not.
same_is_empty :
    (m n : Dict EntityInsert) → ((k : Text) → lookup k m ≡ lookup k n) → is_empty m ≡ is_empty n
unfolding lookup
same_is_empty [] [] h = refl
same_is_empty [] ((k, p) ∷ n) h = ground (arith, h k, eq_refl k)
same_is_empty ((k, p) ∷ m) [] h = ground (arith, h k, eq_refl k)
same_is_empty (_ ∷ m) (_ ∷ n) h = refl

abbrev pub statement_of : Option EntityInsert → List Text
statement_of none = []
statement_of (some p) = p.insert_string ∷ []

statements_of-absent :
    (k : Text) (m : Dict EntityInsert) → lookup k m ≡ none → statements_of k (rows_of m) ≡ []
unfolding statements_of rows_of lookup
statements_of-absent k [] h = refl
statements_of-absent k ((j, p) ∷ m) h = ground (arith, statements_of-absent k m)

pub statements_of-rows_of :
    (k : Text) (m : Dict EntityInsert)
    → NodupKeys m
    → statements_of k (rows_of m) ≡ statement_of (lookup k m)
unfolding statements_of rows_of lookup
statements_of-rows_of k [] _ = refl
statements_of-rows_of k ((j, p) ∷ m) (fresh, u) =
    ground (arith, statements_of-rows_of k m u, statements_of-absent k m, eq_iff j k)

module _ (sprint : Any → Text) where
  -- The calls of a flush: the DELETE of the ids, and then the INSERTs, if there are any.
  abbrev pub sent : List Text → Rows → Settings → List Call → List Call
  sent ids rows s before =
      let deleted = exec (delete_transaction sprint s.6 s.0 s.1 ids) ∷ before in
      if is_empty rows then deleted else exec (insert_transaction (statements rows)) ∷ deleted

  pub calls_with_inserts-sent :
      (answer : Driver) (order : Order) (walk : IsWalk order) (w : MysqlWriter)
      → NodupKeys w.batch_inserts
      → is_empty w.delete_ids ≡ false
      → (m : Dict EntityInsert) × NodupKeys m
        × ((k : Text) → lookup k m ≡ lookup k w.batch_inserts)
        × (calls_with_inserts sprint answer order w
            ≡ sent w.delete_ids (rows_of m) (settings w) w.calls)
  unfolding calls_with_inserts calls_with_deletes
  calls_with_inserts-sent answer order walk w distinct present =
      let before = calls_with_deletes sprint answer order w in
      let m = order before w.batch_inserts in
      let (nodup, same) = walk before w.batch_inserts distinct in
      (
        m,
        nodup,
        same,
        rw (is_empty-rows_of m, same_is_empty m w.batch_inserts same, statements-rows_of m, present)
            refl,
      )
