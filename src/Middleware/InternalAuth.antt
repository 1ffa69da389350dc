-- ===== src/Middleware/InternalAuth.antt =====
-- internal/middleware/internal_auth.go. SHA-256 and HMAC-SHA-256, as hexadecimal text, are
-- parameters. hmac.Equal is the equality of byte strings.
pub mod Skew
use Prim.Native.String.{String}
use nexo_im.Base.{
  ℤ, pos, ◌-ℤ◌, ltb_ℤ, leb_ℤ, wrap64, Text, codes, ◌=ₜ◌, is_empty, not, Bool, true, false, ◌||◌,
  List, [], ◌∷◌, ◌++◌, Option, none, some, if◌then◌else◌,
}
use nexo_im.Strings.{trim_space, to_lower, to_upper, equal_fold}
use nexo_im.Strconv.{parse_int}
use nexo_im.Errors.{Code, forbidden, unauthorized, invalid_param}
use nexo_im.Config.{Config, InternalAuthConfig}

-- What is read of a request; a header that is not there is empty.
pub record Request : Type 0 where
  pub header : Text → Text
  pub method : Text
  pub path : Text
  pub body : Text

-- The answer of the check: the calling service, or the error.
pub data Checked (A : Type 0) : Type 0 where
  accepted : A → Checked A
  rejected : Code → Checked A

unfoldable pub abs_int64 : ℤ → ℤ
abs_int64 v = if ltb_ℤ v (pos 0) then wrap64 (pos 0 -ℤ v) else v

unfoldable pub too_far : ℤ → ℤ → ℤ → Bool
too_far now ts max_skew_seconds = ltb_ℤ max_skew_seconds (abs_int64 (wrap64 (now -ℤ ts)))

named : Text → List Text → Bool
named service_name [] = false
named service_name (s ∷ allowed) =
    equal_fold (trim_space s) service_name || named service_name allowed

unfoldable pub is_service_allowed : Text → List Text → Bool
unfolding named
is_service_allowed service_name [] = true
is_service_allowed service_name (s ∷ allowed) = named service_name (s ∷ allowed)

abbrev pub trimmed : Request → String → Text
trimmed r name = trim_space (r.header (codes name))

module _ (sha256_hex : Text → Text) (hmac_hex : Text → Text → Text) where
  unfoldable pub sign_internal_request : Text → Text → Text → Text → Text → Text → Text
  sign_internal_request secret service_name timestamp method path body = hmac_hex secret (
      service_name
      ++ (10 ∷ (timestamp ++ (10 ∷ (to_upper method ++ (10 ∷ (path ++ (10 ∷ sha256_hex body))))))))

  unfoldable pub check_signature : InternalAuthConfig → Request → Text → Text → Text → Checked Text
  check_signature cfg r service_name ts_str signature =
      let expected = sign_internal_request cfg.secret service_name ts_str r.method r.path r.body in
      if to_lower signature =ₜ expected then accepted service_name else rejected unauthorized

  abbrev check_time : InternalAuthConfig → ℤ → ℤ × Bool → Checked Text → Checked Text
  check_time cfg now (ts, false) rest = rejected unauthorized
  check_time cfg now (ts, true) rest =
      if too_far now ts cfg.max_skew_seconds then rejected unauthorized else rest

  unfoldable pub check_headers :
      InternalAuthConfig → ℤ → Request → Text → Text → Text → Checked Text
  check_headers cfg now r service_name ts_str signature =
      if is_empty service_name || is_empty ts_str || is_empty signature
      then rejected unauthorized
      else if not (is_service_allowed service_name cfg.allowed_services)
      then rejected forbidden
      else check_time cfg now (parse_int ts_str)
          (check_signature cfg r service_name ts_str signature)

  -- `now` is time.Now().Unix().
  unfoldable pub validate_internal_request : Option Config → ℤ → Request → Checked Text
  validate_internal_request none now r = rejected forbidden
  validate_internal_request (some c) now r =
      if not c.internal_auth.enabled || is_empty (trim_space c.internal_auth.secret)
      then rejected forbidden
      else check_headers c.internal_auth now r (trimmed r "X-Service-Name")
          (trimmed r "X-Timestamp") (trimmed r "X-Signature")

  -- What the handlers after it find in the context.
  pub record Caller : Type 0 where
    pub service_name : Text
    pub user_id : Text
    pub platform_id : ℤ

  abbrev with_platform : Text → Text → ℤ × Bool → Checked Caller
  with_platform service user (pid, false) = rejected invalid_param
  with_platform service user (pid, true) =
      if leb_ℤ pid (pos 0)
      then rejected invalid_param
      else accepted (record { service_name = service; user_id = user; platform_id = pid })

  abbrev as_user : Request → Checked Text → Checked Caller
  as_user r (rejected c) = rejected c
  as_user r (accepted service) =
      let user = trimmed r "X-User-Id" in
      let platform = trimmed r "X-Platform-Id" in
      if is_empty user
      then rejected unauthorized
      else if is_empty platform
      then accepted (record { service_name = service; user_id = user; platform_id = pos 5 })
      else with_platform service user (parse_int platform)

  unfoldable pub internal_auth : Option Config → ℤ → Request → Checked Text
  internal_auth = validate_internal_request

  unfoldable pub internal_auth_as_user : Option Config → ℤ → Request → Checked Caller
  internal_auth_as_user cfg now r = as_user r (validate_internal_request cfg now r)

-- What a request has under the key of the service name: nothing, a text, or another value.
pub data Kept : Type 0 where
  nothing other : Kept
  text : Text → Kept

unfoldable pub get_internal_service_name : Kept → Text
get_internal_service_name nothing = []
get_internal_service_name other = []
get_internal_service_name (text s) = s
