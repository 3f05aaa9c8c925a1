-- ===== src/Legacy/Query/Laws.antt =====
-- internal/legacy/db/query.go: the limit in a configured query.
use mysql_datalayer.Prelude.{
  ◌≡◌, refl, sym, ap, ◌∙◌, true, false, List, [], ◌∷◌, ◌++◌, append-nil, is_empty, Text, text,
  nat_eq, ◌||◌, ℕ,
}
use mysql_datalayer.Std.Format.{
  sprintf, end_of_format, IsLiteral, sprintf-literal, sprintf-directive, sprintf-extra,
}
use mysql_datalayer.Legacy.Conf.{TableMapping}
use mysql_datalayer.Legacy.Query.{
  DatasetRequest, full_query, limit_text, full_text, build_table_query,
}

is_empty-append_cons : (s : Text) (c : ℕ) (t : Text) → is_empty (s ++ c ∷ t) ≡ false
is_empty-append_cons [] c t = refl
is_empty-append_cons (_ ∷ s) c t = refl

module _ (other : Text → List Text → Text) (request : DatasetRequest) (table : TableMapping) where
  -- A configured query with one directive %s or %v is built with the limit in its place.
  pub build_table_query-limit :
      (before after : Text) (c : ℕ)
      → table.custom_query ≡ before ++ (b'%' ∷ c ∷ after)
      → (nat_eq c b's' || nat_eq c b'v') ≡ true
      → nat_eq c b'%' ≡ false
      → IsLiteral other before
      → IsLiteral other after
      → build_table_query other (full_query request table)
        ≡ before ++ (limit_text request.limit ++ after)
  unfolding build_table_query full_text sprintf end_of_format
  build_table_query-limit before after c custom verb no_percent plain plain_after =
      rw (custom, is_empty-append_cons before b'%' (c ∷ after))
        (sprintf-literal other before (b'%' ∷ c ∷ after) (limit_text request.limit ∷ []) plain
          ∙ ap (λ t. before ++ t)
              (sprintf-directive other c after (limit_text request.limit) verb no_percent
                ∙ ap (λ t. limit_text request.limit ++ t) (copied after plain_after)))
    where
      copied : (s : Text) → IsLiteral other s → sprintf other s [] ≡ s
      copied s h =
          ap (λ t. sprintf other t []) (sym (append-nil s))
          ∙ (sprintf-literal other s [] [] h ∙ append-nil s)

  -- A configured query without a percent sign is built with the text behind it that fmt appends for
  -- an argument that no directive takes: "%!(EXTRA string=", the text of the limit, and ")".
  pub build_table_query-extra :
      is_empty table.custom_query ≡ false
      → IsLiteral other table.custom_query
      → build_table_query other (full_query request table)
        ≡ table.custom_query ++ (text "%!(EXTRA string=" ++ (limit_text request.limit ++ text ")"))
  unfolding build_table_query full_text
  build_table_query-extra custom plain =
      rw custom (sprintf-extra other table.custom_query (limit_text request.limit) plain)
