-- ===== src/Sdk/Client/Answers.antt =====
-- sdk/client.go: sending a request and reading the answer.
use nexo_im.Base.{
  ℤ, pos, ltb_ℤ, leb_ℤ, eqb_ℤ, ltb, length, take, ◌||◌, not, Text, codes, Option, none, some, List,
  [], ◌∷◌, ◌++◌, if◌then◌else◌,
}
use nexo_im.Strings.{trim_space}
use nexo_im.Sdk.Codecs.{Codecs}
use nexo_im.Sdk.Types.{Response, error_message}
use nexo_im.Sdk.Endpoints.{Endpoint, method_of, path_of}
use nexo_im.Sdk.Client.{
  Client, Context, RequestOption, HttpRequest, HttpResponse, build_request_options, body_request,
  query_request,
}

pub data SdkError : Type 0 where
  marshal_failed send_failed marshal_data_failed decode_data_failed : SdkError
  unexpected_status : ℤ → Text → SdkError
  decode_failed : Text → SdkError
  -- `*Error`
  api : ℤ → Text → SdkError

pub data Answer (A : Type 0) : Type 0 where
  answer : A → Answer A
  failed : SdkError → Answer A

-- `result` of a call: nil, or the zero value of a type, which stays where there are no
-- data, with json.Unmarshal into that type.
pub data Wanted (A : Type 0) : Type 0 where
  unread : A → Wanted A
  read_over : A → (Text → Option A) → Wanted A

-- What the client needs of other packages: the HTTP client, which answers `none` for an error, the
-- clock, and JSON. `Value` is what encoding/json makes of a value of unknown type.
pub record Platform : Type 1 where
  pub World : Type 0
  pub Value : Type 0
  pub do_request : HttpRequest → World → Option HttpResponse × World
  pub now : World → ℤ
  pub json : Codecs
  pub decode_response : Text → Option (Response Value)
  pub encode_value : Value → Option Text
  -- `url.Values.Encode` of the parameters
  pub encode_query : List (Text × Text) → Text
  pub sha256_hex : Text → Text
  pub hmac_hex : Text → Text → Text

unfoldable pub response_body_preview : Text → Text
response_body_preview body =
    let preview = trim_space body in
    if ltb 512 (length preview) then take 512 preview ++ codes "..." else preview

module _ (p : Platform) where
  open p use {World, Value}

  abbrev pub Call : Type 0 → Type 0
  Call A = World → Answer A × World

  abbrev decoded_data : {A : Type 0} → Option A → Answer A
  decoded_data none = failed decode_data_failed
  decoded_data (some a) = answer a

  abbrev read_bytes : {A : Type 0} → (Text → Option A) → Option Text → Answer A
  read_bytes decode none = failed marshal_data_failed
  read_bytes decode (some data_bytes) = decoded_data (decode data_bytes)

  abbrev read_data : {A : Type 0} → Wanted A → Option Value → Answer A
  read_data (unread a) v = answer a
  read_data (read_over a decode) none = answer a
  read_data (read_over a decode) (some v) = read_bytes decode (p.encode_value v)

  abbrev read_response : {A : Type 0} → Text → Wanted A → Option (Response Value) → Answer A
  read_response body w none = failed (decode_failed (response_body_preview body))
  read_response body w (some r) =
      if not (eqb_ℤ r.code (pos 0))
      then failed (api r.code (error_message r))
      else read_data w r.content

  unfoldable pub decode_api_response : {A : Type 0} → HttpResponse → Wanted A → Answer A
  decode_api_response resp w =
      if ltb_ℤ resp.status_code (pos 200) || leb_ℤ (pos 300) resp.status_code
      then failed (unexpected_status resp.status_code (response_body_preview resp.body))
      else read_response resp.body w (p.decode_response resp.body)

  abbrev query_of : List (Text × Text) → Option Text
  query_of [] = none
  query_of (q ∷ qs) = some (p.encode_query (q ∷ qs))

  abbrev received : {A : Type 0} → Wanted A → Option HttpResponse × World → Answer A × World
  received w (none, s) = (failed send_failed, s)
  received w (some resp, s) = (decode_api_response resp w, s)

  module _ (c : Client) (ctx : Context) where
    abbrev sent :
        {A : Type 0} → Text → Text → Option Text → Wanted A → List (Option RequestOption) → Call A
    sent method path none w opts s = (failed marshal_failed, s)
    sent method path (some body) w opts s = received w (
        p.do_request
          (body_request p.sha256_hex p.hmac_hex c ctx (p.now s) method path body
            (build_request_options opts))
          s)

    -- `encoded` is what json.Marshal makes of the body.
    unfoldable pub request :
        {A : Type 0} → Text → Text → Option Text → Wanted A → List (Option RequestOption) → Call A
    request method path encoded w opts = sent method path encoded w opts

    unfoldable pub get :
        {A : Type 0} → Text → List (Text × Text) → Wanted A → List (Option RequestOption) → Call A
    get path params w opts s = received w (
        p.do_request
          (query_request p.sha256_hex p.hmac_hex c ctx (p.now s) path (query_of params)
            (build_request_options opts))
          s)

    -- `c.post` and `c.put`
    abbrev pub call :
        {A : Type 0} → Endpoint → Option Text → Wanted A → List (Option RequestOption) → Call A
    call e encoded w opts = request (method_of e) (path_of e) encoded w opts
