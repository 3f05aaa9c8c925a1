-- ===== src/Std/Format.antt =====
-- package fmt: `Sprintf` with arguments that are strings, for the directives %s, %v and %%. `other`
-- is what it makes of the rest of a format from another directive on, and of the arguments left.
use mysql_datalayer.Prelude.{
  ℕ, ◌≡◌, refl, ap, ◌∙◌, true, false, List, [], ◌∷◌, ◌++◌, All, Text, text, nat_eq, nat_eq-eq, ◌≢◌,
  ◌||◌, arith, append-nil, sym,
}

-- The arguments that no directive takes.
extra : List Text → Text
extra [] = []
extra (a ∷ []) = text "string=" ++ a
extra (a ∷ b ∷ rest) = text "string=" ++ (a ++ (text ", " ++ extra (b ∷ rest)))

unfoldable pub end_of_format : List Text → Text
unfolding extra
end_of_format [] = []
end_of_format (a ∷ rest) = text "%!(EXTRA " ++ (extra (a ∷ rest) ++ text ")")

module _ (other : Text → List Text → Text) where
  unfoldable pub sprintf : Text → List Text → Text
  sprintf [] args = end_of_format args
  sprintf (c ∷ []) args = elim (nat_eq c b'%') [
    | false ↦ c ∷ end_of_format args
    | true ↦ text "%!(NOVERB)" ++ end_of_format args
  ]
  sprintf (c ∷ d ∷ f) args = elim (nat_eq c b'%') [
    | false ↦ c ∷ sprintf (d ∷ f) args
    | true ↦ elim (nat_eq d b'%') [
      | true ↦ d ∷ sprintf f args
      | false ↦ elim (nat_eq d b's' || nat_eq d b'v') [
        | true ↦ elim args [
          | [] ↦ text "%!" ++ (d ∷ (text "(MISSING)" ++ sprintf f []))
          | a ∷ rest ↦ a ++ sprintf f rest
        ]
        | false ↦ other (d ∷ f) args
      ]
    ]
  ]

  -- No directive begins in the text.
  abbrev pub IsLiteral : Text → Type 0
  IsLiteral = All (λ c. c ≢ b'%')

  not_percent : (c : ℕ) → c ≢ b'%' → nat_eq c b'%' ≡ false
  not_percent c h = ground (arith, nat_eq-eq c b'%')

  sprintf-cons :
      (c : ℕ) (f : Text) (args : List Text) → c ≢ b'%' → sprintf (c ∷ f) args ≡ c ∷ sprintf f args
  unfolding sprintf
  sprintf-cons c [] args h = rw (sprintf, not_percent c h) refl
  sprintf-cons c (d ∷ f) args h = rw (sprintf, not_percent c h) refl

  -- A text without a percent sign is copied.
  pub sprintf-literal :
      (s f : Text) (args : List Text) → IsLiteral s → sprintf (s ++ f) args ≡ s ++ sprintf f args
  sprintf-literal [] f args h = refl
  sprintf-literal (c ∷ s) f args (p, h) =
      sprintf-cons c (s ++ f) args p ∙ ap (λ t. c ∷ t) (sprintf-literal s f args h)

  -- The directives %s and %v are replaced by the argument.
  pub sprintf-directive :
      (c : ℕ) (f a : Text)
      → (nat_eq c b's' || nat_eq c b'v') ≡ true
      → nat_eq c b'%' ≡ false
      → sprintf (b'%' ∷ c ∷ f) (a ∷ []) ≡ a ++ sprintf f []
  unfolding sprintf
  sprintf-directive c f a h k = rw (sprintf, k, h) refl

  -- A format without a directive: the argument is complained about behind the text.
  pub sprintf-extra :
      (s a : Text)
      → IsLiteral s
      → sprintf s (a ∷ []) ≡ s ++ (text "%!(EXTRA string=" ++ (a ++ text ")"))
  unfolding sprintf end_of_format extra text
  sprintf-extra s a h =
      ap (λ t. sprintf t (a ∷ [])) (sym (append-nil s)) ∙ sprintf-literal s [] (a ∷ []) h
