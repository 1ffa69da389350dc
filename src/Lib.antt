-- ===== src/Lib.antt =====
-- A model of the instant messaging server in this repository (Go) and theorems about it.
--
-- The server keeps users, groups, memberships, conversations, sequence numbers and messages in
-- MySQL, counters and tokens in Redis, and the websocket connections of online users in memory. The
-- HTTP and websocket handlers call services (internal/service), which call repositories
-- (internal/repository); a message that was stored is handed to the gateway (internal/gateway),
-- which delivers it.
--
--   Errors            pkg/errcode/errcode.go: codes, and results of calls that may fail
--   Strings, Strconv  Go's packages of these names, as far as the program uses them
--   Config            internal/config/config.go: the configuration and its defaults
--   Keys              pkg/constant/constant.go: the keys in Redis
--   Common.Identity   common/identity.go: user ids of the users and agents of other systems
--   Common.Password   common/password.go: passwords derived from user ids
--   Idgen             pkg/idgen/idgen.go: the generators of ids
--   Entity.*          internal/entity: records, ids of conversations (base.go), what a user may see
--                     of a conversation (seq.go), typed and flat message content (message.go)
--   Backend           MySQL and Redis. `Backend` is a parameter of everything that reads or writes:
--                     a statement is a function on the tables, a command one on the keys, and each
--                     runs as a whole or fails and changes nothing; a transaction that fails leaves
--                     the tables as they were, but not Redis. Backend.Monad has the actions that
--                     Go's `if err != nil` chains become, Backend.Leaves the rules for what they
--                     leave, Backend.Memory a backend in memory that fails where a list of
--                     faults says so
--   Repository.*      internal/repository: one definition for each statement and for each method;
--                     Repository.Setup opens, checks and closes the connections (base_repo.go)
--   Service.Message   internal/service/message_service.go: sending (Single, Group), reading (Pull),
--                     access (Access), the check of contents (Content)
--   Service.Group     internal/service/group_service.go: creating, joining and leaving groups
--   Service.Conversation
--                     internal/service/conversation_service.go: one conversation, marking as read,
--                     and the list by pages (Pages, over Repository.Conversation.Page)
--   Service.History   groups and messages together
--   Service.User      internal/service/user_service.go
--   Service.Auth      internal/service/auth_service.go: registering, login, token checks, logout, over
--                     Token.Jwt (pkg/jwt/jwt.go, external_claims.go) and Token.Store
--   Middleware.Auth   internal/middleware/auth.go: the token of a request
--   Middleware.InternalAuth
--                     internal/middleware/internal_auth.go: signed calls of other services
--   Middleware.TraceId, Middleware.Logger, Middleware.Cors
--                     the other middlewares: trace ids, logged bodies, headers for other origins
--   Router            internal/router/router.go: the table of routes, with their middleware
--   Sdk.*             sdk: the client library (Client with its options, headers and signatures, and
--                     Client.Answers; Endpoints; Auth, User, Group, Message, Conversation, Actors).
--                     Its internal calls are what Middleware.InternalAuth checks, its paths are
--                     what Router serves, and its answers are those of Response
--   Response, Handler.*
--                     pkg/response/response.go and internal/handler: the HTTP handlers
--   Gateway.UserMap   internal/gateway/user_map.go: the connections of each user
--   Gateway.Hub       internal/gateway/ws_server.go: the counters and the event loop
--   Gateway.Push      internal/gateway/ws_server.go: the push queue and the deliveries of a task
--   Gateway.AppPush   internal/gateway/app_push.go and ws_server.go: what is pushed to the app gateway;
--                     AppPush.Sender has the calls of that gateway
--   Gateway.Conn      internal/gateway/client_conn.go: the write queue, and the write loop as a step
--                     relation
--   Gateway.Client    internal/gateway/client.go: a request, its answer, kicking and closing;
--                     Client.Reading is the read loop, over what arrives, and Client.Life is all that a
--                     client does, with its write loop, as a step relation
--   Gateway.Wire      internal/gateway/protocol.go: the structs on the wire
--   Gateway.Handlers  internal/gateway/ws_server.go: the handlers of requests, over the services
--   Gateway.Status, Gateway.Connect
--                     internal/gateway/ws_server.go: who is online, and the handshake
--   Gateway.Serving   internal/gateway/ws_server.go: handshakes and the event loop side by side, with
--                     the channels between them, as a step relation
--   Token.Store       pkg/jwt/token_store.go: tokens as fields of a Redis hash; Store.ForceLogout
--                     scans for all keys of a user
--   Tests.*           concrete runs, on tables kept in memory
--
-- Parameters besides `Backend`: Redis for the token store (Token.Store.Redis), golang-jwt, bcrypt
-- and uuid (Token.Jwt.Jwt, Service.Auth.Crypto), encoding/json (Gateway.Wire.Json), HMAC and
-- SHA-256, what hertz binds of a request and what path it finds in a target (Router.Uri), the HTTP
-- clients of the SDK and of the app gateway, the clock, sonyflake, and SCAN and the patterns of
-- Redis with what they guarantee (Token.Store.ForceLogout.Scanner).
--
-- Go's int64 is the integers: sequence numbers and times stay far from the ends of int64. Where a
-- number comes from outside, in Strconv and in Middleware.InternalAuth, the range and the
-- wrap-around of int64 are written out (Base.Int64). Strings are their bytes, also for MySQL: its
-- columns have the default collation of utf8mb4, for which texts that differ in case or accents are
-- equal, and the model is of data in which texts that MySQL takes for equal are equal byte by byte.
-- A table is the list of its rows; no result depends on the order of rows but for the first of
-- several, which unique keys rule out. The text of an error, log lines and the format of JSON are
-- left out: a stored content is read back as it was written, and whether a message can be stored,
-- as its content encodes and its texts fit their columns, is the parameter `fits` of `Backend`;
-- other rows that do not fit are statements that fail. Left out are also row locks: a call runs
-- alone, from its first statement to its last; the events of the gateway and the rounds of a write
-- loop come in any order. Fuel is used for the digits of a number, where one more than the number
-- is enough, and for the pages that a client follows, where one more than the number of
-- conversations is enough, and for the scan of a forced logout, where one more than its rounds is
-- enough, which is Redis's promise that a scan of a bounded set of keys ends; the other loops are
-- over lists.
--
-- Not modelled: the start of the process (cmd), OpenTelemetry and log lines, panics, the deadlines
-- and pong handlers of a websocket, reading the configuration file (viper), and the constants that
-- nothing reads.
pub mod Base
pub mod Strings
pub mod Strconv
pub mod Common
pub mod Config
pub mod Keys
pub mod Errors
pub mod Entity
pub mod Backend
pub mod Repository
pub mod Service
pub mod Response
pub mod Middleware
pub mod Gateway
pub mod Handler
pub mod Token
pub mod Router
pub mod Idgen
pub mod Sdk
pub mod Tests
