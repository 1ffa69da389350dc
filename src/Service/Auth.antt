-- ===== src/Service/Auth.antt =====
-- internal/service/auth_service.go. bcrypt and uuid are parameters; the tables and the tokens are two
-- worlds that run side by side.
pub mod Tokens
use nexo_im.Base.{
  ℕ, ℤ, pos, eqb_ℤ, Text, is_empty, not, Bool, true, false, Option, none, some, [], if◌then◌else◌,
}
use nexo_im.Errors.{
  Failure, code, internal_server, user_exists, user_not_found, password_wrong, token_invalid,
  Result, ok, err,
}
use nexo_im.Entity.User.{User, UserInfo, to_user_info}
use nexo_im.Backend.{Backend}
use nexo_im.Backend.Monad.{Action, pure, fail, ◌>>=◌, ◌>>◌, attempt, or_fail, fail_if, gets, lift}
use nexo_im.Config.{Config}
use nexo_im.Token.Jwt
use nexo_im.Token.Jwt.{Jwt, Claims, generate_token, parse_token}
use nexo_im.Token.Store.{Redis, store_token, kick_other_tokens, is_token_valid, invalidate_token}
use nexo_im.Token.Store.ForceLogout.{Scanner, force_logout_user}
use nexo_im.Repository.User

pub record Server (V W : Type 0) : Type 0 where
  pub tables : V
  pub tokens : W

module _ {V W : Type 0} where
  abbrev pub on_tables : {A : Type 0} → Action V A → Action (Server V W) A
  on_tables m s = ((m s.tables).0, record s { tables = (m s.tables).1 })

  abbrev pub on_tokens : {A : Type 0} → Action W A → Action (Server V W) A
  on_tokens m s = ((m s.tokens).0, record s { tokens = (m s.tokens).1 })

-- The libraries that the service calls.
pub record Crypto (V : Type 0) : Type 0 where
  pub jwt : Jwt
  pub new_uuid : V → Text
  pub generate_from_password : Text → V → Result Text
  pub compare_hash_and_password : Text → Text → Bool

pub record RegisterRequest : Type 0 where
  pub user_id : Text
  pub nickname : Text
  pub password : Text
  pub avatar : Text

pub record LoginRequest : Type 0 where
  pub user_id : Text
  pub password : Text
  pub platform_id : ℤ

pub record LoginResponse : Type 0 where
  pub token : Text
  pub user_info : UserInfo

module _ (b : Backend) (crypto : Crypto b.World) where
  open crypto use {new_uuid, generate_from_password}

  unfoldable pub register : RegisterRequest → Action b.World UserInfo
  register req = do
    exists ← or_fail (User.exists b req.user_id) (code internal_server)
    fail_if exists (code user_exists)
    generated ← gets new_uuid
    hash ← gets (generate_from_password req.password)
    hashed_password ← or_fail (lift hash) (code internal_server)
    user ←
        or_fail
          (User.create b (record {
            id = if is_empty req.user_id then generated else req.user_id;
            nickname = req.nickname;
            avatar = req.avatar;
            password = hashed_password;
            extra = none;
            created_at = pos 0;
            updated_at = pos 0;
          }))
          (code internal_server)
    pure (to_user_info user)

module _ (b : Backend) (r : Redis) (crypto : Crypto b.World) (cfg : Config) where
  open crypto use {jwt, compare_hash_and_password}

  abbrev pub World : Type 0
  World = Server b.World r.World

  abbrev found_user : Option User → Action World User
  found_user none = fail (code user_not_found)
  found_user (some user) = pure user

  -- From the password that matched on. What kicking the other tokens answers is only logged.
  unfoldable pub issue_token : User → ℤ → Action World LoginResponse
  issue_token user platform_id = do
    now ← on_tables (gets b.clock)
    token ←
        or_fail
          (lift (generate_token jwt user.id platform_id cfg.jwt.secret cfg.jwt.expire_hours now))
          (code internal_server)
    or_fail (on_tokens (store_token r user.id platform_id token)) (code internal_server)
    attempt (on_tokens (kick_other_tokens r user.id platform_id token))
    pure (record { token = token; user_info = to_user_info user })

  unfoldable pub login : LoginRequest → Action World LoginResponse
  login req = do
    row ← or_fail (on_tables (User.get_by_id b req.user_id)) (code user_not_found)
    user ← found_user row
    fail_if (not (compare_hash_and_password user.password req.password)) (code password_wrong)
    issue_token user req.platform_id

  -- Where Redis does not answer, the token itself is enough.
  abbrev by_status : Claims → Result Bool → Action World Claims
  by_status claims (err f) = pure claims
  by_status claims (ok true) = pure claims
  by_status claims (ok false) = fail (code token_invalid)

  unfoldable pub check_status : Text → Claims → Action World Claims
  check_status token claims = do
    valid ← attempt (on_tokens (is_token_valid r claims.user_id claims.platform_id token))
    by_status claims valid

  unfoldable pub validate_token : Text → Action World Claims
  validate_token token = do
    now ← on_tables (gets b.clock)
    claims ← lift (parse_token jwt token cfg.jwt.secret now)
    check_status token claims

  unfoldable pub validate_token_with_user : Text → Text → ℤ → Action World Claims
  validate_token_with_user token user_id platform_id = do
    now ← on_tables (gets b.clock)
    claims ← lift (Jwt.validate_token jwt token cfg.jwt.secret user_id platform_id now)
    check_status token claims

  unfoldable pub logout : Text → ℤ → Text → Action World (Unit {0})
  logout user_id platform_id token =
      or_fail (on_tokens (invalidate_token r user_id platform_id token)) (code internal_server)

  -- `fuel` bounds the rounds of the scan.
  unfoldable pub force_logout : Scanner r → ℕ → Text → Action World (Unit {0})
  force_logout s fuel user_id =
      or_fail (on_tokens (force_logout_user r s fuel user_id)) (code internal_server)
