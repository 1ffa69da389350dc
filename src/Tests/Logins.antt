-- ===== src/Tests/Logins.antt =====
-- Runs of logging in and out, over the memory backend and the Redis of Tests.Tokens.
use nexo_im.Base.{arith, find, ◌=ₜ◌, upsert, pos, codes, ◌≡◌, refl, none, some, [], ◌∷◌}
use nexo_im.Errors.{ok, err, code, token_invalid}
use nexo_im.Entity.User.{User, to_user_info}
use nexo_im.Backend.Memory.{memory, holding, no_rows}
use nexo_im.Token.Jwt.{Claims, generate_token, parse_token_with_fallback}
use nexo_im.Token.Store.{store_token, kick_other_tokens, kick, h_set, h_get_all}
use nexo_im.Repository.User.{get_by_id, first_user}
use nexo_im.Service.Auth.{
  World, Crypto, LoginRequest, LoginResponse, login, issue_token, validate_token, logout,
}
use nexo_im.Service.Auth.Tokens.{IsUp, Alone, login-Alone, validate_token-logout}
use nexo_im.Tests.Data.{ann}
use nexo_im.Tests.Tokens
use nexo_im.Tests.Tokens.{start}
use nexo_im.Tests.Identities.{config}

abbrev claims : Claims
claims = record {
  user_id = ann;
  platform_id = pos 1;
  registered = record { expires_at = pos 0; issued_at = pos 0; not_before = pos 0; issuer = [] };
}

abbrev crypto : Crypto memory.World
crypto = record {
  jwt = record {
    numeric_date = λ n. n;
    sign = λ c secret. ok (codes "t9");
    parse = λ token secret now. some claims;
    parse_external = λ token secret now. none;
  };
  new_uuid = λ w. codes "id";
  generate_from_password = λ p w. ok p;
  compare_hash_and_password = λ h p. h =ₜ p;
}

abbrev ann_row : User
ann_row = record {
  id = ann;
  nickname = [];
  avatar = [];
  password = codes "pw";
  extra = none;
  created_at = pos 0;
  updated_at = pos 0;
}

abbrev server : World memory Tokens.memory crypto config
server = record { tables = holding (record no_rows { users = ann_row ∷ [] }); tokens = start }

redis_is_up : IsUp Tokens.memory
redis_is_up = record { up = λ A k q w. refl; expires = λ k n w. refl }

abbrev ann_logs_in : LoginRequest
ann_logs_in = record { user_id = ann; password = codes "pw"; platform_id = pos 1 }

abbrev answer : LoginResponse
answer = record { token = codes "t9"; user_info = to_user_info ann_row }

logged_in : (login memory Tokens.memory crypto config ann_logs_in server).0 ≡ ok answer
unfolding login issue_token get_by_id first_user generate_token store_token h_set kick_other_tokens
    kick h_get_all ◌=ₜ◌ find upsert
logged_in = refl

login-Alone_example :
    Alone memory Tokens.memory crypto config redis_is_up answer
      (pos 1)
      (login memory Tokens.memory crypto config ann_logs_in server).1.tokens
      (codes "t1")
login-Alone_example =
    login-Alone memory Tokens.memory crypto config redis_is_up ann_logs_in server answer
      (codes "t1") (omega arith) logged_in

validate_token-logout_example :
    let after = (logout memory Tokens.memory crypto config ann (pos 1) (codes "t1") server).1 in
    ((validate_token memory Tokens.memory crypto config (codes "t1") after).0
      ≡ err (code token_invalid))
    × (parse_token_with_fallback crypto.jwt (codes "t1") (some config) (memory.clock after.tables)
        ≡ ok claims)
validate_token-logout_example =
    validate_token-logout memory Tokens.memory crypto config redis_is_up (codes "t1") claims server
      refl
