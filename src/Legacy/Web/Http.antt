-- ===== src/Legacy/Web/Http.antt =====
-- What internal/legacy/web uses of the echo framework: the request's context, handlers, and the
-- functions that wrap them. A handler changes a state `S`, which holds what it has written to the
-- response, and returns nil, an error or panics.
use mysql_datalayer.Layer.Error.{Outcome, failed}
use mysql_datalayer.Prelude.{Bool, Option, Text, ℕ}

-- internal/legacy/web/middlewares/auth0.go, `CustomClaims` with the standard claims that are read.
pub record CustomClaims : Type 0 where
  pub scope : Text
  pub gty : Text
  pub adm : Bool
  pub audience : Text
  pub issuer : Text
  pub subject : Text

pub record Context : Type 0 where
  pub authorization : Text
  pub path : Text
  pub request_uri : Text
  -- What was set as "user": the claims of the token.
  pub user : Option CustomClaims

pub record HttpError : Type 0 where
  pub code : ℕ
  pub message : Text

abbrev pub Handler : Type 0 → Type 0
Handler S = Context → S → S × Outcome HttpError

abbrev pub Middleware : Type 0 → Type 0
Middleware S = Handler S → Handler S

-- `echo.NewHTTPError(code, message)` that a handler returns.
abbrev pub http_error : {S : Type 0} → ℕ → Text → S → S × Outcome HttpError
http_error code message s = (s, failed (record { code = code; message = message }))
