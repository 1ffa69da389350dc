-- ===== src/Sdk/Auth.antt =====
-- sdk/auth.go
use nexo_im.Base.{ℤ, Text, Bool, []}
use nexo_im.Sdk.Endpoints
use nexo_im.Sdk.Endpoints.{method_of, path_of}
use nexo_im.Sdk.Client.{Client, Context, set_token, set_ignore_auth}
use nexo_im.Sdk.Client.Answers.{Platform, Call, Answer, answer, failed, read_over, call}
use nexo_im.Sdk.Types.{
  UserInfo, LoginRequest, LoginResponse, RegisterRequest, zero_user, zero_login,
}

module _ (p : Platform) (c : Client) (ctx : Context) where
  open p use {World}

  unfoldable pub register : RegisterRequest → Call p UserInfo
  register req =
      call p c ctx Endpoints.register (p.json.encode_register req)
        (read_over zero_user p.json.decode_user) []

  -- The token of the answer becomes that of the client.
  abbrev logged_in : Answer LoginResponse × World → Answer LoginResponse × World × Client
  logged_in (failed e, s) = (failed e, s, c)
  logged_in (answer result, s) = (answer result, s, set_token result.token c)

  unfoldable pub login : LoginRequest → World → Answer LoginResponse × World × Client
  login req s = logged_in (
      call p c ctx Endpoints.login (p.json.encode_login req)
        (read_over zero_login p.json.decode_login) [] s)

  unfoldable pub login_with_user_id :
      Text → Text → ℤ → World → Answer LoginResponse × World × Client
  login_with_user_id user_id password platform_id =
      login (record { user_id = user_id; password = password; platform_id = platform_id })

  unfoldable pub internal_register : RegisterRequest → Call p UserInfo
  internal_register req =
      call p c ctx Endpoints.internal_register (p.json.encode_register req)
        (read_over zero_user p.json.decode_user) []

unfoldable pub use_external_token : Text → Client → Client
use_external_token = set_token

unfoldable pub enable_test_auth_bypass : Bool → Client → Client
enable_test_auth_bypass = set_ignore_auth
