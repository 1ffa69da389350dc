-- ===== src/Service/Auth/Tokens.antt =====
-- Which tokens of a user count after the calls of internal/service/auth_service.go, where Redis
-- answers every command.
use nexo_im.Base.{◌<ℤ◌, pos, eqb_ℤ, none, some, Option, Bool-cases, false}
use nexo_im.Errors.{err, code, token_invalid}
use nexo_im.Token.Store.{
  token_key, is_token_valid, validate_token_status, invalidate_token, h_get, token_status_logout,
}
use nexo_im.Token.Jwt.{Claims, parse_token, parse_token_with_fallback}
use nexo_im.Service.Auth.{check_status, validate_token, logout}
use nexo_im.Base.{some, ◌≢◌, inl, inr, ℤ, Text, ◌≡◌, true, List, [], ◌∷◌, arith, refl}
use nexo_im.Errors.{is_ok, ok}
use nexo_im.Errors.{Result-cases}
use nexo_im.Backend.{Backend}
use nexo_im.Config.{Config}
use nexo_im.Entity.User.{User, to_user_info}
use nexo_im.Token.Jwt.{parse_token_with_fallback, generate_token}
use nexo_im.Base.{Bool-cases}
use nexo_im.Repository.User
use nexo_im.Service.Auth.{
  parse_token, logout, check_status, LoginRequest, is_token_valid, login, invalidate_token,
  validate_token, Crypto, LoginResponse, World, issue_token,
}
use nexo_im.Token.Store.Kicking.{kick_other_tokens-alone}
use nexo_im.Token.Store.{
  validate_token_status, h_get, Field, Redis, HashCommand, h_set, h_get_all, kick,
  kick_other_tokens, store_token, token_status_normal, token_status_logout, token_status_kicked,
}
use nexo_im.Token.Store.Kicking.{status, h_set_self}

-- Redis answers every command.
pub record IsUp (r : Redis) : Type 1 where
  pub up :
      (A : Type 0) (k : Text) (q : HashCommand A) (w : r.World) → is_ok (r.command A k q w).0 ≡ true
  pub expires : (k : Text) (n : ℤ) (w : r.World) → is_ok (r.expire k n w).0 ≡ true

module _ (r : Redis) (u : IsUp r) where
  open r use {hash, command, expire, access_expire, command_lem, expire_lem}

  kick_done :
      (key current : Text) (fs : List Field) (w : r.World)
      → is_ok (kick r key current fs w).0 ≡ true
  unfolding kick
  kick_done key current [] w = refl
  kick_done key current (f ∷ fs) w =
      let w₁ = (command Unit key (h_set f.token token_status_kicked) w).1 in
      ground (
        arith,
        u.up Unit key (h_set f.token token_status_kicked) w,
        kick_done key current fs w,
        kick_done key current fs w₁,
      )

  kick_other_done :
      (user_id : Text) (platform_id : ℤ) (current : Text) (w : r.World)
      → is_ok (kick_other_tokens r user_id platform_id current w).0 ≡ true
  unfolding kick_other_tokens
  kick_other_done user_id p current w =
      let key = token_key user_id p in
      ground (
        arith,
        u.up (List Field) key h_get_all w,
        command_lem (List Field) key h_get_all w,
        kick_done key current (h_get_all (hash w key)).0 (command (List Field) key h_get_all w).1,
      )

  stored :
      (user_id : Text) (p : ℤ) (t : Text) (w : r.World)
      → pos 0 <ℤ access_expire
      → ((store_token r user_id p t w).0 ≡ ok tt)
        × (status r (store_token r user_id p t w).1 (token_key user_id p) t ≡ token_status_normal)
  unfolding store_token
  stored user_id p t w lasting =
      let key = token_key user_id p in
      let w₁ = (command Unit key (h_set t token_status_normal) w).1 in
      ground (
        arith,
        u.up Unit key (h_set t token_status_normal) w,
        u.expires key access_expire w₁,
        command_lem Unit key (h_set t token_status_normal) w,
        expire_lem key access_expire w₁ key,
        h_set_self t token_status_normal (hash w key),
      )

module _ (b : Backend) (r : Redis) (crypto : Crypto b.World) (cfg : Config) (u : IsUp r) where
  -- The token of a response is the only one of the user on the platform that is "normal".
  abbrev pub Alone : LoginResponse → ℤ → r.World → Text → Type 0
  Alone resp p w t =
      let key = token_key resp.user_info.id p in
      (status r w key resp.token ≡ token_status_normal)
      × (t ≢ resp.token → status r w key t ≢ token_status_normal)

  issue_token-Alone :
      (user : User) (p : ℤ) (s : World b r crypto cfg) (resp : LoginResponse) (t : Text)
      → pos 0 <ℤ r.access_expire
      → (issue_token b r crypto cfg user p s).0 ≡ ok resp
      → Alone resp p (issue_token b r crypto cfg user p s).1.tokens t
  unfolding issue_token to_user_info
  issue_token-Alone user p s resp t lasting h =
      let made =
        generate_token crypto.jwt user.id p cfg.jwt.secret cfg.jwt.expire_hours
          (b.clock s.tables) in
      elim (Result-cases made) [
        | inl (token, given) ↦
            let w₁ = (store_token r user.id p token s.tokens).1 in
            ground (
              arith,
              stored r u user.id p token s.tokens lasting,
              kick_other_tokens-alone r user.id p token t w₁
                  (kick_other_done r u user.id p token w₁),
            )
        | inr (f, failed) ↦ absurd (ground arith)
      ]

  -- If Redis answers every command and the lifetime of tokens is positive, then after a login that
  -- succeeds the token it returns has the status "normal" and no other token of the user on the
  -- platform has.
  pub login-Alone :
      (req : LoginRequest) (s : World b r crypto cfg) (resp : LoginResponse) (t : Text)
      → pos 0 <ℤ r.access_expire
      → (login b r crypto cfg req s).0 ≡ ok resp
      → Alone resp req.platform_id (login b r crypto cfg req s).1.tokens t
  unfolding login
  login-Alone req s resp t lasting h =
      let s₁ : World b r crypto cfg = record s {
        tables = (User.get_by_id b req.user_id s.tables).1;
      } in
      elim (Result-cases (User.get_by_id b req.user_id s.tables).0) [
        | inr (f, failed) ↦ absurd (ground arith)
        | inl (none, absent) ↦ absurd (ground arith)
        | inl (some user, present) ↦
            elim (Bool-cases (crypto.compare_hash_and_password user.password req.password)) [
              | inl matches ↦
                  ground (arith, issue_token-Alone user req.platform_id s₁ resp t lasting)
              | inr wrong ↦ absurd (ground arith)
            ]
      ]

  not_valid :
      (user_id : Text) (p : ℤ) (t : Text) (w : r.World)
      → eqb_ℤ (status r w (token_key user_id p) t) token_status_normal ≡ false
      → (is_token_valid r user_id p t w).0 ≡ ok false
  unfolding is_token_valid validate_token_status h_get
  not_valid user_id p t w n =
      let key = token_key user_id p in
      ground
        (arith, u.up (Option Field) key (h_get t) w, r.command_lem (Option Field) key (h_get t) w)

  logged_out :
      (user_id : Text) (p : ℤ) (t : Text) (w : r.World)
      → eqb_ℤ
          (status r (invalidate_token r user_id p t w).1 (token_key user_id p) t)
          token_status_normal
        ≡ false
  unfolding invalidate_token h_get
  logged_out user_id p t w =
      let key = token_key user_id p in
      let w₁ = (r.command (Option Field) key (h_get t) w).1 in
      ground (
        arith,
        u.up (Option Field) key (h_get t) w,
        r.command_lem (Option Field) key (h_get t) w,
        u.up Unit key (h_set t token_status_logout) w₁,
        r.command_lem Unit key (h_set t token_status_logout) w₁,
        h_set_self t token_status_logout (r.hash w₁ key),
      )

  -- If Redis answers every command, then after a logout `ValidateToken` refuses the token, while
  -- `ParseTokenWithFallback`, which JWTAuth and the WebSocket handshake use, still takes it, as long as
  -- golang-jwt finds the token valid, with the user and the platform that were logged out.
  pub validate_token-logout :
      (token : Text) (claims : Claims) (s : World b r crypto cfg)
      → let after = (logout b r crypto cfg claims.user_id claims.platform_id token s).1 in
        crypto.jwt.parse token cfg.jwt.secret (b.clock after.tables) ≡ some claims
        → ((validate_token b r crypto cfg token after).0 ≡ err (code token_invalid))
          × (parse_token_with_fallback crypto.jwt token (some cfg) (b.clock after.tables)
              ≡ ok claims)
  unfolding validate_token check_status logout parse_token parse_token_with_fallback
  validate_token-logout token claims s given =
      let w₁ = (invalidate_token r claims.user_id claims.platform_id token s.tokens).1 in
      let gone = logged_out claims.user_id claims.platform_id token s.tokens in
      ground (arith, not_valid claims.user_id claims.platform_id token w₁ gone)
