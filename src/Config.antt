-- ===== src/Config.antt =====
-- internal/config/config.go. Reading the file and the environment is viper's; what it hands over is
-- the configuration that `with_defaults` is given. A duration is its nanoseconds.
use nexo_im.Base.{
  ℕ, ◌*◌, ◌^◌, ℤ, pos, eqb_ℤ, Text, codes, ◌=ₜ◌, is_empty, Bool, List, ◌++◌, if◌then◌else◌,
}
use nexo_im.Strings.{trim_space, to_upper}
use nexo_im.Strconv.{format_int}

pub record ServerConfig : Type 0 where
  pub http_port : ℤ
  pub ws_port : ℤ
  pub mode : Text
  pub allowed_origins : List Text

pub record MysqlConfig : Type 0 where
  pub host : Text
  pub port : ℤ
  pub user : Text
  pub password : Text
  pub database : Text
  pub charset : Text
  pub max_open_conns : ℤ
  pub max_idle_conns : ℤ

pub record RedisConfig : Type 0 where
  pub host : Text
  pub port : ℤ
  pub password : Text
  pub db : ℤ
  pub key_prefix : Text
  pub cluster : Bool
  pub tls : Bool
  pub addrs : List Text

pub record JwtConfig : Type 0 where
  pub secret : Text
  pub expire_hours : ℤ

pub record ExternalJwtConfig : Type 0 where
  pub enabled : Bool
  pub secret : Text
  pub default_role : Text
  pub default_platform_id : ℤ

pub record InternalAuthConfig : Type 0 where
  pub enabled : Bool
  pub secret : Text
  pub allowed_services : List Text
  pub max_skew_seconds : ℤ

pub record WebSocketConfig : Type 0 where
  pub max_conn_num : ℤ
  pub max_message_size : ℤ
  pub write_wait : ℤ
  pub pong_wait : ℤ
  pub ping_period : ℤ
  pub push_channel_size : ℤ
  pub push_worker_num : ℤ
  pub write_channel_size : ℤ

pub record Config : Type 0 where
  pub server : ServerConfig
  pub mysql : MysqlConfig
  pub redis : RedisConfig
  pub jwt : JwtConfig
  pub external_jwt : ExternalJwtConfig
  pub internal_auth : InternalAuthConfig
  pub web_socket : WebSocketConfig

unfoldable pub dsn : MysqlConfig → Text
dsn c =
    c.user
    ++ (codes ":"
        ++ (c.password
            ++ (codes "@tcp("
                ++ (c.host
                    ++ (codes ":"
                        ++ (format_int c.port
                            ++ (codes ")/"
                                ++ (c.database
                                    ++ (codes "?charset="
                                        ++ (c.charset ++ codes "&parseTime=True&loc=Local"))))))))))

unfoldable pub addr : RedisConfig → Text
addr c = c.host ++ (codes ":" ++ format_int c.port)

unfoldable pub normalize_infra_env : Text → Text
normalize_infra_env env =
    let e = to_upper (trim_space env) in
    if e =ₜ codes "PROD"
    then codes "PROD"
    else if e =ₜ codes "TEST"
    then codes "TEST"
    else codes "LOCAL"

-- `env` is the value of INFRA_ENV.
unfoldable pub resolve_config_path : Text → Text → Text
resolve_config_path env config_path =
    if is_empty (trim_space config_path)
    then (if normalize_infra_env env =ₜ codes "PROD"
        then codes "config/config.prod.yaml"
        else if normalize_infra_env env =ₜ codes "TEST"
        then codes "config/config.test.yaml"
        else codes "config/config.local.yaml")
    else config_path

abbrev pub or_number : ℤ → ℕ → ℤ
or_number n default = if eqb_ℤ n (pos 0) then pos default else n

abbrev pub or_text : Text → Text → Text
or_text t default = if is_empty t then default else t

abbrev seconds : ℕ → ℕ
seconds n = n * 10 ^ 9

server_defaults : ServerConfig → ServerConfig
server_defaults c =
    let port = or_number c.http_port 8080 in
    record c {
      http_port = port;
      ws_port = if eqb_ℤ c.ws_port (pos 0) then port else c.ws_port;
      mode = or_text c.mode (codes "debug");
    }

mysql_defaults : MysqlConfig → MysqlConfig
mysql_defaults c = record c {
  charset = or_text c.charset (codes "utf8mb4");
  max_open_conns = or_number c.max_open_conns 100;
  max_idle_conns = or_number c.max_idle_conns 10;
}

redis_defaults : RedisConfig → RedisConfig
redis_defaults c = record c {
  key_prefix = or_text c.key_prefix (codes "nexo:");
  port = or_number c.port 6379;
}

web_socket_defaults : WebSocketConfig → WebSocketConfig
web_socket_defaults c = record {
  max_conn_num = or_number c.max_conn_num 10000;
  max_message_size = or_number c.max_message_size 51200;
  write_wait = or_number c.write_wait (seconds 10);
  pong_wait = or_number c.pong_wait (seconds 30);
  ping_period = or_number c.ping_period (seconds 27);
  push_channel_size = or_number c.push_channel_size 10000;
  push_worker_num = or_number c.push_worker_num 10;
  write_channel_size = or_number c.write_channel_size 256;
}

-- What `Load` makes of the configuration that was read.
unfoldable pub with_defaults : Config → Config
unfolding server_defaults mysql_defaults redis_defaults web_socket_defaults
with_defaults c = record {
  server = server_defaults c.server;
  mysql = mysql_defaults c.mysql;
  redis = redis_defaults c.redis;
  jwt = record c.jwt { expire_hours = or_number c.jwt.expire_hours 168 };
  external_jwt = record c.external_jwt {
    default_role = or_text c.external_jwt.default_role (codes "user");
    default_platform_id = or_number c.external_jwt.default_platform_id 1;
  };
  internal_auth = record c.internal_auth {
    max_skew_seconds = or_number c.internal_auth.max_skew_seconds 300;
  };
  web_socket = web_socket_defaults c.web_socket;
}
