-- ===== src/Middleware/Auth.antt =====
-- internal/middleware/auth.go: which requests JWTAuth lets through, and as whom. `env` is INFRA_ENV.
use nexo_im.Base.{
  pos, [], ℤ, Text, codes, is_empty, not, Bool, ◌||◌, ◌&&◌, Option, none, some, if◌then◌else◌,
}
use nexo_im.Strings.{trim_space, equal_fold, after_prefix}
use nexo_im.Errors.{Code, token_missing, token_invalid, Result, ok, err}
use nexo_im.Config.{Config}
use nexo_im.Token.Jwt.{Jwt, Claims, parse_token_with_fallback}
use nexo_im.Middleware.InternalAuth.{Request, Checked, accepted, rejected, trimmed}

abbrev from_x_token : Text → Code → Checked Text
from_x_token x_token missing = if is_empty x_token then rejected missing else accepted x_token

abbrev from_bearer : Text → Option Text → Checked Text
from_bearer x_token (some bearer) =
    let token = trim_space bearer in
    if is_empty token then rejected token_missing else accepted token
from_bearer x_token none = from_x_token x_token token_invalid

unfoldable pub extract_token : Request → Checked Text
extract_token r =
    let auth_header = trimmed r "Authorization" in
    if is_empty auth_header
    then from_x_token (trimmed r "X-Token") token_missing
    else from_bearer (trimmed r "X-Token") (after_prefix (codes "Bearer ") auth_header)

unfoldable pub is_test_env : Text → Bool
is_test_env env =
    equal_fold (trim_space env) (codes "TEST") || equal_fold (trim_space env) (codes "LOCAL")

-- The identity that the handlers find in the context; none is set for a request that skips the check.
pub record Identity : Type 0 where
  pub user_id : Text
  pub platform_id : ℤ

module _ (j : Jwt) where
  abbrev as_claimed : Result Claims → Checked (Option Identity)
  as_claimed (ok c) = accepted (some (record { user_id = c.user_id; platform_id = c.platform_id }))
  as_claimed (err f) = rejected token_invalid

  abbrev with_token : Option Config → ℤ → Checked Text → Checked (Option Identity)
  with_token cfg now (rejected c) = rejected c
  with_token cfg now (accepted token) = as_claimed (parse_token_with_fallback j token cfg now)

  unfoldable pub jwt_auth : Text → Option Config → ℤ → Request → Checked (Option Identity)
  jwt_auth env cfg now r =
      if is_test_env env && not (is_empty (r.header (codes "Ignore-Auth")))
      then accepted none
      else with_token cfg now (extract_token r)

-- GetUserId and GetPlatformId
abbrev pub user_id_of : Option Identity → Text
user_id_of none = []
user_id_of (some i) = i.user_id

abbrev pub platform_id_of : Option Identity → ℤ
platform_id_of none = pos 0
platform_id_of (some i) = i.platform_id
