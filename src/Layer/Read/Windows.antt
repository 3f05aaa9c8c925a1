-- ===== src/Layer/Read/Windows.antt =====
-- internal/layer/read.go: the window of changes that a read asks the database for.
use mysql_datalayer.Layer.Key.{entity_column, since_column, since_table}
use mysql_datalayer.Layer.Write.Batch.{built}
use mysql_datalayer.Prelude.{
  ◌∙◌, ℕ, ◌≡◌, refl, false, Option, none, some, [], ◌∷◌, ◌++◌, arith, if◌then◌else◌, is_empty, All,
  Text, text, contains,
}
use mysql_datalayer.Prelude.Int.{ℤ}
use mysql_datalayer.Std.Base64.{url_encoding, encode, decode}
use mysql_datalayer.Std.Base64.RoundTrip.{url_encoding-IsAlphabet, decode-encode, IsByte}
use mysql_datalayer.Std.Time.{Time, format_micros, format_seconds, zero_time}
use mysql_datalayer.Std.Time.Plain.{IsDateByte, format_micros-All}
use mysql_datalayer.Layer.Error.{err_query, or_else, Result, ok, err, panic, ◌>>=◌}
use mysql_datalayer.Layer.Any.{Any}
use mysql_datalayer.Layer.Key
use mysql_datalayer.Layer.Read.Iterator.{
  make_row_buf, token, Cursor, DbIterator, max_since_query, latest, max_since, max_since_text,
  open_iterator, new_iterator,
}
use mysql_datalayer.Layer.Definition.{DatasetDefinition, get_config_property}
use mysql_datalayer.Layer.Read.Query.{
  columns, base_query, upper_bound, lower_bound, window, conditions, limit_clause, build_query,
}

is_empty-append_cons : (s : Text) (c : ℕ) (t : Text) → is_empty (s ++ c ∷ t) ≡ false
is_empty-append_cons [] c t = refl
is_empty-append_cons (_ ∷ s) c t = refl

format_micros-nonempty : (t : Time) → is_empty (format_micros t) ≡ false
unfolding format_micros
format_micros-nonempty t = is_empty-append_cons (format_seconds t) _ _

encode-nonempty : (s : Text) → is_empty s ≡ false → is_empty (encode url_encoding s) ≡ false
unfolding encode
encode-nonempty [] h = h
encode-nonempty (a ∷ []) h = refl
encode-nonempty (a ∷ b ∷ []) h = refl
encode-nonempty (a ∷ b ∷ c ∷ s) h = refl

IsDateByte-IsByte : (s : Text) → All IsDateByte s → All IsByte s
IsDateByte-IsByte [] _ = tt
IsDateByte-IsByte (c ∷ s) (p, ps) = (omega arith, IsDateByte-IsByte s ps)

-- The token of a time decodes to the text of the time.
pub decode-token :
    (t : Time)
    → decode url_encoding (encode url_encoding (format_micros t)) ≡ some (format_micros t)
decode-token t =
    decode-encode url_encoding url_encoding-IsAlphabet (format_micros t)
      (IsDateByte-IsByte _ (format_micros-All t))

pub token-nonempty : (t : Time) → is_empty (encode url_encoding (format_micros t)) ≡ false
token-nonempty t = encode-nonempty _ (format_micros-nonempty t)

bind_assoc :
    {E A B C : Type 0} (m : Result E A) (f : A → Result E B) (g : B → Result E C)
    → (m >>= λ x. f x >>= g) ≡ ((m >>= f) >>= g)
bind_assoc (ok a) f g = refl
bind_assoc (err e) f g = refl
bind_assoc panic f g = refl

-- A chain that succeeds had a first part that did.
split :
    {E A B : Type 0} (m : Result E A) (f : A → Result E B) (b : B)
    → (m >>= f) ≡ ok b
    → (a : A) × (f a ≡ ok b)
split (ok a) f b h = (a, h)
split (err e) f b h = cc
split panic f b h = cc

-- What joins the window to the query.
abbrev pub connect : Text → Text
connect q = (if contains q (text "WHERE") then text " AND " else text " WHERE ") ++ text " "

module _ (sprint : Any → Text) (corrupt : Text → Text) (d : DatasetDefinition) (q max : Text)
    (limit : ℤ)
    (head : (columns (get_config_property d.source_config Key.entity_column) d.outgoing
        >>= base_query d)
      ≡ ok q)
    (has_table : is_empty (get_config_property d.source_config Key.since_table) ≡ false)
    (has_max : is_empty max ≡ false) where
  abbrev table : Text
  table = get_config_property d.source_config Key.since_table

  abbrev column : Text
  column = get_config_property d.source_config Key.since_column

  build_query-conditions :
      (since w : Text)
      → conditions sprint corrupt d q since max ≡ ok w
      → build_query sprint corrupt d since max limit ≡ ok (q ++ (w ++ limit_clause limit))
  unfolding build_query
  build_query-conditions since w h =
      bind_assoc (columns (get_config_property d.source_config Key.entity_column) d.outgoing)
        (base_query d)
        (λ q. conditions sprint corrupt d q since max >>= λ w. ok (q ++ (w ++ limit_clause limit)))
      ∙ rw (head, h) refl

  build_query-first :
      build_query sprint corrupt d [] max limit
      ≡ ok (q ++ ((connect q ++ upper_bound table column max) ++ limit_clause limit))
  unfolding conditions window
  build_query-first = build_query-conditions [] _ (rw (has_max, has_table) refl)

  build_query-resume :
      (t : Time)
      → build_query sprint corrupt d (encode url_encoding (format_micros t)) max limit
        ≡ ok (
            q
            ++ ((connect q
                  ++ (lower_bound table column (format_micros t) ++ upper_bound table column max))
                ++ limit_clause limit))
  unfolding conditions window
  build_query-resume t =
      build_query-conditions _ _ (rw (has_max, has_table, token-nonempty t, decode-token t) refl)

-- The token of the zero time or of the latest change.
abbrev pub token_of : Option Time → Text
token_of max = encode url_encoding (format_micros (elim max [ none ↦ zero_time | some t ↦ t ]))

module _ {Row : Type 0} (scan_time : Row → Result Text (Option Time)) (d : DatasetDefinition) where
  -- The database answers the query for the latest change with `max`.
  abbrev pub LatestIs : (Text → Result Text (Cursor Row)) → Option Time → Type 0
  LatestIs db max =
      (c : Cursor Row) × (db (
          max_since_query (get_config_property d.source_config Key.since_column)
            (get_config_property d.source_config Key.since_table))
        ≡ ok c)
      × (latest scan_time c ≡ ok max)

module _ {Row : Type 0} (scan_time : Row → Result Text (Option Time)) (sprint : Any → Text)
    (corrupt : Text → Text) (d : DatasetDefinition) (q : Text)
    (head : (columns (get_config_property d.source_config Key.entity_column) d.outgoing
        >>= base_query d)
      ≡ ok q)
    (has_column : is_empty (get_config_property d.source_config Key.since_column) ≡ false)
    (has_table : is_empty (get_config_property d.source_config Key.since_table) ≡ false) where
  max_since-latest :
      (db : Text → Result Text (Cursor Row)) (max : Option Time)
      → LatestIs scan_time d db max
      → max_since scan_time db d ≡ ok (max, token_of max)
  unfolding max_since
  max_since-latest db max (c, asked, found) = rw (has_column, has_table, asked, found) refl

  new_iterator-query :
      (db : Text → Result Text (Cursor Row)) (t : Time) (since query : Text) (limit : ℤ)
      → LatestIs scan_time d db (some t)
      → build_query sprint corrupt d since (format_micros t) limit ≡ ok query
      → new_iterator scan_time sprint corrupt db d since limit
        ≡ open_iterator db d since limit (token_of (some t)) query
  unfolding new_iterator max_since_text
  new_iterator-query db t since query limit at built =
      rw (max_since-latest db (some t) at, built) refl

  open_iterator-token :
      (db : Text → Result Text (Cursor Row)) (since token query : Text) (limit : ℤ)
      (it : DbIterator Row)
      → open_iterator db d since limit token query ≡ ok it
      → it.current_token ≡ token
  unfolding open_iterator
  open_iterator-token db since token query limit it h =
      let (cursor, h₁) = split (or_else (db query) err_query) _ it h in
      let (types, h₂) = split (or_else cursor.column_types err_query) _ it h₁ in
      let (names, h₃) = split (or_else cursor.column_names err_query) _ it h₂ in
      let (buf, h₄) = split (make_row_buf types) _ it h₃ in cc

  new_iterator-token :
      (db : Text → Result Text (Cursor Row)) (t : Time) (since : Text) (limit : ℤ)
      (it : DbIterator Row)
      → LatestIs scan_time d db (some t)
      → new_iterator scan_time sprint corrupt db d since limit ≡ ok it
      → it.current_token ≡ token_of (some t)
  unfolding new_iterator max_since_text
  new_iterator-token db t since limit it at h =
      let h₁ = (rw (max_since-latest db (some t) at) at h) in
      let (query, h₂) =
        split (or_else (build_query sprint corrupt d since (format_micros t) limit) err_query) _ it
          h₁ in
      open_iterator-token db since (token_of (some t)) query limit it h₂

  -- For a dataset with a since column and a since table, whose query has a head: a read that gets
  -- the token of an earlier read asks for the changes after the latest one of the earlier read, up
  -- to its own latest one, where both reads find a latest change.
  pub new_iterator-resume :
      (before after : Text → Result Text (Cursor Row)) (t₁ t₂ : Time) (since : Text) (l₁ l₂ : ℤ)
      (it : DbIterator Row)
      → LatestIs scan_time d before (some t₁)
      → LatestIs scan_time d after (some t₂)
      → new_iterator scan_time sprint corrupt before d since l₁ ≡ ok it
      → new_iterator scan_time sprint corrupt after d (token it) l₂
        ≡ open_iterator after d (token it) l₂ (token_of (some t₂)) (
            q
            ++ ((connect q
                  ++ (lower_bound
                        (get_config_property d.source_config Key.since_table)
                        (get_config_property d.source_config Key.since_column)
                        (format_micros t₁)
                      ++ upper_bound
                          (get_config_property d.source_config Key.since_table)
                          (get_config_property d.source_config Key.since_column)
                          (format_micros t₂)))
                ++ limit_clause l₂))
  unfolding token
  new_iterator-resume before after t₁ t₂ since l₁ l₂ it first second h =
      rw (new_iterator-token before t₁ since l₁ it first h) (
        new_iterator-query after t₂ _ _ l₂ second (
          build_query-resume sprint corrupt d q (format_micros t₂) l₂ head has_table
            (format_micros-nonempty t₂) t₁))
