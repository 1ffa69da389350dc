-- ===== src/Handler/Auth.antt =====
-- internal/handler/auth_handler.go
use nexo_im.Base.{Option, none, some}
use nexo_im.Errors.{invalid_param}
use nexo_im.Entity.User.{UserInfo}
use nexo_im.Backend.{Backend}
use nexo_im.Config.{Config}
use nexo_im.Token.Store.{Redis}
use nexo_im.Service.Auth
use nexo_im.Service.Auth.{Crypto, Server, RegisterRequest, LoginRequest, LoginResponse}
use nexo_im.Handler.Message.{Handler, answers, rejects}

unfoldable pub register :
    (b : Backend) → Crypto b.World → Option RegisterRequest → Handler b.World UserInfo
register b crypto none = rejects invalid_param
register b crypto (some req) = answers (Auth.register b crypto req)

unfoldable pub login :
    (b : Backend) (r : Redis)
    → Crypto b.World
    → Config
    → Option LoginRequest
    → Handler (Server b.World r.World) LoginResponse
login b r crypto cfg none = rejects invalid_param
login b r crypto cfg (some req) = answers (Auth.login b r crypto cfg req)
