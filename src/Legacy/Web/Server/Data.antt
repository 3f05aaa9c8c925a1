-- ===== src/Legacy/Web/Server/Data.antt =====
-- A token service, and the configuration of a web server.
use mysql_datalayer.Legacy.Web.Server.Allowed.{FindsCommon}
use mysql_datalayer.Layer.Any.{str}
use mysql_datalayer.Layer.Error.{Result, err, ok, ◌>>=◌}
use mysql_datalayer.Legacy.Datasets.{one_of}
use mysql_datalayer.Legacy.Environment.{Env}
use mysql_datalayer.Legacy.Web.Auth.{Cached, Jwt, jwks}
use mysql_datalayer.Legacy.Web.Http.{CustomClaims}
use mysql_datalayer.Legacy.Web.Server.Laws.{IsIntersection}
use mysql_datalayer.Prelude.{
  is_empty, not, ◌&&◌, ◌||◌, eq_iff, sym, ◌∙◌, eq_refl, Bool-cases, List, Text, [], arith, false,
  if◌then◌else◌, inl, inr, refl, text, true, ◌==◌, ◌∷◌, ◌≡◌,
}

abbrev pub claims : CustomClaims
claims = record {
  scope = text "datahub:r datahub:w";
  gty = text "client-credentials";
  adm = false;
  audience = [];
  issuer = [];
  subject = [];
}

abbrev pub signed : Text → Text → Result Text CustomClaims
signed auth key = if auth == key then ok claims else err (b'e' ∷ [])

-- A token is signed with a key if it is the key.
abbrev pub jwt : Jwt Text
jwt = record {
  parse_with_claims = λ auth key_of. key_of (str (b'k' ∷ [])) >>= signed auth;
  parse_public_key = λ cert. ok (b'p' ∷ []);
  verify_audience =
      λ c audience required. (is_empty c.audience && not required) || c.audience == audience;
  verify_issuer = λ c issuer required. (is_empty c.issuer && not required) || c.issuer == issuer;
  jwt_missing = b'm' ∷ [];
}

abbrev pub cache : Text → Text → Result Text Cached
cache url key = ok (jwks (record { kid = b'k' ∷ []; x5c = (b'x' ∷ []) ∷ [] } ∷ []))

-- The members of the first list that are in the second one.
abbrev pub intersect : List Text → List Text → List Text
intersect [] ys = []
intersect (x ∷ xs) ys = let rest = intersect xs ys in if one_of x ys then x ∷ rest else rest

pub intersect-IsIntersection : IsIntersection intersect
unfolding one_of
intersect-IsIntersection [] ys z zs h = cc
intersect-IsIntersection (x ∷ xs) ys z zs h = elim (Bool-cases (one_of x ys)) [
  | inl has ↦
      (let e = rw has at h in let same : z ≡ x = cc in rw (same, eq_refl x, has) (refl, refl))
  | inr lacks ↦
      (let (claimed, asked) = intersect-IsIntersection xs ys z zs (rw lacks at h) in
        (rw claimed (ground arith), asked))
]

abbrev pub env : Env
env = record {
  profile = [];
  port = [];
  config_location = [];
  refresh_interval = [];
  service_name = [];
  user = record { user_name = []; password = [] };
  auth = record {
    well_known = [];
    audience = [];
    audience_auth0 = [];
    issuer = [];
    issuer_auth0 = [];
    middleware = [];
  };
}

-- A common member that is not the first one is behind it.
later :
    (x : Text) (xs ys : List Text) (z : Text)
    → one_of z (x ∷ xs) ≡ true
    → one_of z ys ≡ true
    → one_of x ys ≡ false
    → one_of z xs ≡ true
unfolding one_of
later x xs ys z claimed asked lacks = elim (Bool-cases (z == x)) [
  | inl same ↦
      (let e = rw ((eq_iff z x).0 same) at asked in let clash : true ≡ false = sym e ∙ lacks in cc)
  | inr other ↦ rw other at claimed
]

pub intersect-FindsCommon : FindsCommon intersect
unfolding one_of
intersect-FindsCommon [] ys z claimed asked = cc
intersect-FindsCommon (x ∷ xs) ys z claimed asked = elim (Bool-cases (one_of x ys)) [
  | inl has ↦ rw has refl
  | inr lacks ↦ rw lacks (intersect-FindsCommon xs ys z (later x xs ys z claimed asked lacks) asked)
]
