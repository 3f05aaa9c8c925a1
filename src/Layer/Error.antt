-- ===== src/Layer/Error.antt =====
-- internal/layer/error.go. A layer error is the kind and the message that the code hands to the
-- common-datalayer library; a Go error is its message.
use mysql_datalayer.Prelude.{refl, ◌≡◌, ◌++◌, Text, text}
use mysql_datalayer.Prelude.Int.{ℤ, itoa}

pub data Kind : Type 0 where
  internal bad_parameter not_supported : Kind

pub record LayerError : Type 0 where
  pub kind : Kind
  pub message : Text

-- `common.Errorf(kind, …)` and `common.Err(err, kind)` of an error that is not nil.
abbrev pub errorf : Kind → Text → LayerError
errorf kind message = record { kind = kind; message = message }

unfoldable pub err_query : Text → LayerError
err_query err = errorf internal (text "failed to query database. " ++ err)

unfoldable pub err_not_supported : LayerError
err_not_supported = errorf internal (text "operation not supported in this layer")

unfoldable pub err_dataset_not_found : Text → LayerError
err_dataset_not_found name = errorf bad_parameter (text "dataset " ++ (name ++ text " not found"))

unfoldable pub err_connection : Text → LayerError
err_connection e = errorf internal (text "database connection error. " ++ e)

unfoldable pub err_batch_size_mismatch : ℤ → ℤ → LayerError
err_batch_size_mismatch observed expected = errorf internal (
    text "batch size mismatch. rows affected: "
    ++ (itoa observed ++ (text ", expected: " ++ itoa expected)))

-- `ErrGeneric`, with its message formatted.
unfoldable pub err_generic : Text → LayerError
err_generic message = errorf internal message

-- What a call that may fail or panic comes to.
pub data Result (E A : Type 0) : Type 0 where
  ok : A → Result E A
  err : E → Result E A
  panic : Result E A

infixl 5 ◌>>=◌
abbrev pub ◌>>=◌ : {E A B : Type 0} → Result E A → (A → Result E B) → Result E B
ok a >>= f = f a
err e >>= f = err e
panic >>= f = panic

-- A Go error that a method returns as a layer error.
abbrev pub or_else : {E F A : Type 0} → Result E A → (E → F) → Result F A
or_else (ok a) wrap = ok a
or_else (err e) wrap = err (wrap e)
or_else panic wrap = panic

-- The same for a method that changes its receiver: the new state is returned beside it.
pub data Outcome (E : Type 0) : Type 0 where
  done : Outcome E
  failed : E → Outcome E
  panicked : Outcome E

-- `common.Err(err, common.LayerErrorInternal)` of the error of a call.
abbrev pub as_internal : Outcome Text → Outcome LayerError
as_internal done = done
as_internal (failed e) = failed (errorf internal e)
as_internal panicked = panicked

-- A chain that returns a value has returned one at its start.
pub bind-ok :
    {E A B : Type 0} (r : Result E A) (f : A → Result E B) (b : B)
    → (r >>= f) ≡ ok b
    → (a : A) × (r ≡ ok a) × (f a ≡ ok b)
bind-ok (ok a) f b h = (a, refl, h)
bind-ok (err e) f b h = cc
bind-ok panic f b h = cc
