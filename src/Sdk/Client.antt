-- ===== src/Sdk/Client.antt =====
-- sdk/client.go: a client, its options, and the requests that it builds and sends. The HTTP client of
-- hertz, the clock, encoding/json, SHA-256 and HMAC, and `url.Values.Encode` are parameters. Headers
-- are a function of their names, empty where none is set.
pub mod Answers
pub mod Signing
pub mod Outcome
use nexo_im.Base.{
  ℕ, ℤ, pos, leb_ℤ, ltb_ℤ, eqb_ℤ, ltb, ◌+◌, length, take, ◌||◌, Text, codes, ◌=ₜ◌, is_empty, Bool,
  true, false, Option, none, some, List, [], ◌∷◌, ◌++◌, if◌then◌else◌,
}
use nexo_im.Strings.{trim_space, to_upper}
use nexo_im.Strconv.{format_int}

pub record InternalAuthConfig : Type 0 where
  pub service_name : Text
  pub secret : Text

pub record ActAsUserConfig : Type 0 where
  pub user_id : Text
  pub platform_id : ℤ

-- Without the HTTP client, which is a parameter of the calls.
pub record Client : Type 0 where
  pub base_url : Text
  pub token : Text
  pub ignore_auth : Bool
  pub internal : Option InternalAuthConfig

abbrev pub ClientOption : Type 0
ClientOption = Client → Client

-- `requestOptions`: the user for whom a request is made.
abbrev pub RequestOptions : Type 0
RequestOptions = Option ActAsUserConfig

abbrev pub RequestOption : Type 0
RequestOption = RequestOptions → RequestOptions

abbrev pub platform_id_web : ℤ
platform_id_web = pos 5

abbrev pub default_base_url : Text
default_base_url = codes "http://localhost:8080"

unfoldable pub with_token : Text → ClientOption
with_token token c = record c { token = token }

unfoldable pub with_ignore_auth_header : Bool → ClientOption
with_ignore_auth_header enabled c = record c { ignore_auth = enabled }

unfoldable pub with_internal_auth : Text → Text → ClientOption
with_internal_auth given_name given_secret c =
    let service_name = trim_space given_name in
    let secret = trim_space given_secret in
    if is_empty service_name || is_empty secret
    then record c { internal = none }
    else record c { internal = some (record { service_name = service_name; secret = secret }) }

unfoldable pub with_act_as_user : Text → ℤ → RequestOption
with_act_as_user given_id platform_id o =
    let user_id = trim_space given_id in
    if is_empty user_id
    then none
    else some (record {
      user_id = user_id;
      platform_id = if leb_ℤ platform_id (pos 0) then platform_id_web else platform_id;
    })

apply_options : Client → List ClientOption → Client
apply_options c [] = c
apply_options c (opt ∷ opts) = apply_options (opt c) opts

-- `created`: hertz has made its HTTP client; `none` is the error.
unfoldable pub new_client : Bool → Text → List ClientOption → Option Client
unfolding apply_options
new_client false base_url opts = none
new_client true base_url opts = some (
    apply_options
      (record {
        base_url = if is_empty base_url then default_base_url else base_url;
        token = [];
        ignore_auth = false;
        internal = none;
      })
      opts)

unfoldable pub new_internal_client : Bool → Text → Text → Text → List ClientOption → Option Client
new_internal_client created base_url service_name secret opts =
    new_client created base_url (opts ++ with_internal_auth service_name secret ∷ [])

unfoldable pub set_token : Text → Client → Client
set_token token c = record c { token = token }

unfoldable pub set_ignore_auth : Bool → Client → Client
set_ignore_auth enabled c = record c { ignore_auth = enabled }

-- A nil option is skipped.
apply_request_options : RequestOptions → List (Option RequestOption) → RequestOptions
apply_request_options o [] = o
apply_request_options o (none ∷ opts) = apply_request_options o opts
apply_request_options o (some opt ∷ opts) = apply_request_options (opt o) opts

unfoldable pub build_request_options : List (Option RequestOption) → RequestOptions
unfolding apply_request_options
build_request_options opts = apply_request_options none opts

-- A value of a context, by the cases of its type that are told apart.
pub data ContextValue : Type 0 where
  nil other : ContextValue
  string bytes stringer : Text → ContextValue

unfoldable pub context_value_to_trace_id : ContextValue → Text
context_value_to_trace_id nil = []
context_value_to_trace_id other = []
context_value_to_trace_id (string s) = trim_space s
context_value_to_trace_id (bytes s) = trim_space s
context_value_to_trace_id (stringer s) = trim_space s

abbrev pub Context : Type 0
Context = Option (Text → ContextValue)

first_trace_id : (Text → ContextValue) → List Text → Text
first_trace_id value [] = []
first_trace_id value (key ∷ keys) =
    let val = context_value_to_trace_id (value key) in
    if is_empty val then first_trace_id value keys else val

unfoldable pub trace_id_from_context : Context → Text
unfolding first_trace_id context_value_to_trace_id
trace_id_from_context none = []
trace_id_from_context (some value) =
    first_trace_id value (codes "trace_id" ∷ (codes "Trace-Id" ∷ (codes "X-Trace-Id" ∷ [])))

abbrev pub Headers : Type 0
Headers = Text → Text

abbrev pub set_header : Text → Text → Headers → Headers
set_header name value h j = if name =ₜ j then value else h j

abbrev pub set_trace : Text → Headers → Headers
set_trace trace_id h =
    if is_empty trace_id
    then h
    else set_header (codes "X-Trace-Id") trace_id (set_header (codes "Trace-Id") trace_id h)

abbrev pub set_tokens : Text → Headers → Headers
set_tokens token h =
    if is_empty token
    then h
    else set_header (codes "X-Token") token
        (set_header (codes "Authorization") (codes "Bearer " ++ token) h)

abbrev pub set_acting_user : RequestOptions → Headers → Headers
set_acting_user none h = h
set_acting_user (some a) h =
    set_header (codes "X-Platform-Id") (format_int a.platform_id)
      (set_header (codes "X-User-Id") a.user_id h)

pub record HttpRequest : Type 0 where
  pub method : Text
  pub url : Text
  pub headers : Headers
  pub body : Text

pub record HttpResponse : Type 0 where
  pub status_code : ℤ
  pub body : Text

module _ (sha256_hex : Text → Text) (hmac_hex : Text → Text → Text) where
  unfoldable pub sign_internal_request : Text → Text → Text → Text → Text → Text → Text
  sign_internal_request secret service_name timestamp method path body = hmac_hex secret (
      service_name
      ++ (10 ∷ (timestamp ++ (10 ∷ (to_upper method ++ (10 ∷ (path ++ (10 ∷ sha256_hex body))))))))

  abbrev pub set_internal : Option InternalAuthConfig → ℤ → Text → Text → Text → Headers → Headers
  set_internal none now method path body h = h
  set_internal (some i) now method path body h =
      let ts = format_int now in
      set_header (codes "X-Signature")
        (sign_internal_request i.secret i.service_name ts method path body)
        (set_header (codes "X-Timestamp") ts (set_header (codes "X-Service-Name") i.service_name h))

  -- `now` is time.Now().Unix().
  unfoldable pub apply_auth_headers :
      Client → Context → ℤ → Text → Text → Text → RequestOptions → Headers → Headers
  unfolding trace_id_from_context
  apply_auth_headers c ctx now method path body req_opts h =
      let traced = set_trace (trace_id_from_context ctx) h in
      let with_tokens = set_tokens c.token traced in
      let ignoring =
        if c.ignore_auth
        then set_header (codes "Ignore-Auth") (codes "1") with_tokens
        else with_tokens in
      set_acting_user req_opts (set_internal c.internal now method path body ignoring)

  -- The request that `request` sends, whose body is marshalled already.
  unfoldable pub body_request :
      Client → Context → ℤ → Text → Text → Text → RequestOptions → HttpRequest
  body_request c ctx now method path body req_opts = record {
    method = method;
    url = c.base_url ++ path;
    headers =
        apply_auth_headers c ctx now method path body req_opts
          (set_header (codes "Content-Type") (codes "application/json") (λ name. []));
    body = body;
  }

  abbrev question : Option Text → Text
  question none = []
  question (some query) = b'?' ∷ query

  -- The request that `get` sends; `query` is the encoded query, if there are parameters.
  unfoldable pub query_request :
      Client → Context → ℤ → Text → Option Text → RequestOptions → HttpRequest
  query_request c ctx now path query req_opts = record {
    method = codes "GET";
    url = c.base_url ++ (path ++ question query);
    headers = apply_auth_headers c ctx now (codes "GET") path [] req_opts (λ name. []);
    body = [];
  }
