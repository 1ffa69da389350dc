-- ===== src/Token/Jwt.antt =====
-- pkg/jwt/jwt.go and pkg/jwt/external_claims.go. Signing, and checking a signature and the times of a
-- token, are golang-jwt's: parameters.
use nexo_im.Base.{
  ◌*◌, ◌-◌, suc, ℤ, pos, negsuc, ◌+ℤ◌, eqb_ℤ, Text, codes, ◌=ₜ◌, is_empty, not, Option, none, some,
  if◌then◌else◌,
}
use nexo_im.Errors.{code, token_invalid, token_mismatch, Result, ok, err}
use nexo_im.Common.Identity.{to_im_user_id}
use nexo_im.Config.{Config}

pub record RegisteredClaims : Type 0 where
  pub expires_at : ℤ
  pub issued_at : ℤ
  pub not_before : ℤ
  pub issuer : Text

pub record Claims : Type 0 where
  pub user_id : Text
  pub platform_id : ℤ
  pub registered : RegisteredClaims

pub record ExternalClaims : Type 0 where
  pub user_id : ℤ
  pub role : Text
  pub registered : RegisteredClaims

pub record Jwt : Type 0 where
  -- NewNumericDate of a time in milliseconds
  pub numeric_date : ℤ → ℤ
  -- SignedString with HS256 and a secret
  pub sign : Claims → Text → Result Text
  -- ParseWithClaims of a token with a secret, at a time: the claims of a valid token
  pub parse : Text → Text → ℤ → Option Claims
  pub parse_external : Text → Text → ℤ → Option ExternalClaims

-- `time.Duration(expireHours) * time.Hour`, in milliseconds
abbrev hours : ℤ → ℤ
hours (pos n) = pos (n * 3600000)
hours (negsuc n) = negsuc (suc n * 3600000 - 1)

module _ (j : Jwt) where
  open j use {numeric_date, sign, parse, parse_external}

  unfoldable pub generate_token : Text → ℤ → Text → ℤ → ℤ → Result Text
  generate_token user_id platform_id secret expire_hours now =
      sign
        (record {
          user_id = user_id;
          platform_id = platform_id;
          registered = record {
            expires_at = numeric_date (now +ℤ hours expire_hours);
            issued_at = numeric_date now;
            not_before = numeric_date now;
            issuer = codes "nexo-im";
          };
        })
        secret

  abbrev claims_or_invalid : Option Claims → Result Claims
  claims_or_invalid none = err (code token_invalid)
  claims_or_invalid (some c) = ok c

  unfoldable pub parse_token : Text → Text → ℤ → Result Claims
  parse_token token secret now = claims_or_invalid (parse token secret now)

  abbrev matching : Text → ℤ → Result Claims → Result Claims
  matching user_id platform_id (err f) = err f
  matching user_id platform_id (ok c) =
      if not (c.user_id =ₜ user_id)
      then err (code token_mismatch)
      else if not (eqb_ℤ c.platform_id platform_id)
      then err (code token_mismatch)
      else ok c

  unfoldable pub validate_token : Text → Text → Text → ℤ → ℤ → Result Claims
  validate_token token secret user_id platform_id now =
      matching user_id platform_id (parse_token token secret now)

  abbrev im_claims : ℤ → RegisteredClaims → Option Text → Result Claims
  im_claims platform_id registered none = err (code token_invalid)
  im_claims platform_id registered (some id) =
      ok (record { user_id = id; platform_id = platform_id; registered = registered })

  abbrev converted : Text → ℤ → Option ExternalClaims → Result Claims
  converted default_role default_platform_id none = err (code token_invalid)
  converted default_role default_platform_id (some c) = im_claims default_platform_id c.registered (
      to_im_user_id
        (record { id = c.user_id; role = if is_empty c.role then default_role else c.role }))

  unfoldable pub parse_external_token : Text → Text → Text → ℤ → ℤ → Result Claims
  parse_external_token token secret default_role default_platform_id now =
      converted default_role default_platform_id (parse_external token secret now)

  abbrev fallback : Config → Text → ℤ → Result Claims → Result Claims
  fallback c token now (ok claims) = ok claims
  fallback c token now (err f) =
      if c.external_jwt.enabled
      then parse_external_token token c.external_jwt.secret c.external_jwt.default_role
          c.external_jwt.default_platform_id now
      else err f

  -- internal/middleware/auth.go
  unfoldable pub parse_token_with_fallback : Text → Option Config → ℤ → Result Claims
  parse_token_with_fallback token none now = err (code token_invalid)
  parse_token_with_fallback token (some c) now =
      fallback c token now (parse_token token c.jwt.secret now)
