-- ===== src/Tests/Clients.antt =====
-- Calls of the SDK against the server.
use nexo_im.Base.{
  is_empty, Bool, ◌==◌, ◌++◌, ◌+◌, ℕ, pos, Text, codes, ◌=ₜ◌, ◌≡◌, ◌↔◌, ◌⊎◌, refl, true, false,
  none, some, Option, [], ◌∷◌, length, arith, if◌then◌else◌,
}
use nexo_im.Errors.{err, refused}
use nexo_im.Strings.{trim_space, trim_left, trim_right, to_lower, equal_fold}
use nexo_im.Middleware.InternalAuth.{Request, accepted, is_service_allowed, internal_auth_as_user}
use nexo_im.Router.{Uri, is_visible, clean_from, is_clean, dispatch_request}
use nexo_im.Router.Reach.{HasSegment, target, guarded_by, served_by, dispatch-Endpoint_iff}
use nexo_im.Sdk.Endpoints
use nexo_im.Sdk.Endpoints.{method_of, path_of}
use nexo_im.Sdk.Client.{body_request, Client}
use nexo_im.Sdk.Client.Signing.{Delivers, IsHex, sent, caller, signed_request-accepted}
use nexo_im.Sdk.Client.Answers.{Platform, read_over, decode_api_response}
use nexo_im.Sdk.Codecs.{Codecs}
use nexo_im.Sdk.Client.Outcome.{IsBody, outcome, decode_api_response-respond}
use nexo_im.Response.{respond, error}
use nexo_im.Idgen.{generate_uuid}
use nexo_im.Idgen.Form.{at, generate_uuid-IsV4}
use nexo_im.Tests.Identities.{config}

generate_uuid-IsV4_example :
    let t = generate_uuid (λ i. 999 + i) in
    (length t ≡ 36)
    × (at 8 t ≡ codes "-")
    × (at 13 t ≡ codes "-")
    × (at 18 t ≡ codes "-")
    × (at 23 t ≡ codes "-")
    × (at 14 t ≡ codes "4")
    × ((at 19 t ≡ codes "8")
        ⊎ (at 19 t ≡ codes "9")
        ⊎ (at 19 t ≡ codes "a")
        ⊎ (at 19 t ≡ codes "b"))
generate_uuid-IsV4_example = generate_uuid-IsV4 (λ i. 999 + i)

-- What stands before the query.
before_query : Text → Text
before_query [] = []
before_query (c ∷ t) = if c == b'?' then [] else c ∷ before_query t

before_query-clean_from :
    (slash : Bool) (t query : Text)
    → clean_from slash t ≡ true
    → (before_query t ≡ t) × (before_query (t ++ (b'?' ∷ query)) ≡ t)
unfolding before_query clean_from
before_query-clean_from slash [] query h = (refl, refl)
before_query-clean_from slash (c ∷ t) query h =
    ground (arith, before_query-clean_from true t query, before_query-clean_from false t query)

before_query-is_clean :
    (t query : Text)
    → is_clean t ≡ true
    → (before_query t ≡ t) × (before_query (t ++ (b'?' ∷ query)) ≡ t)
unfolding before_query is_clean
before_query-is_clean [] query h = (refl, refl)
before_query-is_clean (c ∷ t) query h = ground (arith, before_query-clean_from true t query)

abbrev uri : Uri
uri = record {
  path = before_query;
  path_lem = λ t query h visible. before_query-is_clean t query h;
}

profile_clean : is_clean (path_of (Endpoints.profile (codes "u___1"))) ≡ true
unfolding is_clean clean_from path_of
profile_clean = refl

query_visible : is_visible (codes "a=b") ≡ true
unfolding is_visible
query_visible = refl

dispatch-Endpoint_iff_example : HasSegment (Endpoints.profile (codes "u___1")) ↔ (
    dispatch_request uri
      (method_of (Endpoints.profile (codes "u___1")))
      (target (Endpoints.profile (codes "u___1")) (some (codes "a=b")))
    ≡ some (
      guarded_by (Endpoints.profile (codes "u___1")),
      served_by (Endpoints.profile (codes "u___1")),
    ))
dispatch-Endpoint_iff_example =
    dispatch-Endpoint_iff uri (Endpoints.profile (codes "u___1")) (some (codes "a=b")) profile_clean
      query_visible

abbrev client : Client
client = record { base_url = codes "http://h"; token = []; ignore_auth = false; internal = none }

abbrev digest : Text → Text → Text
digest secret content = codes "d9"

digest-IsHex : IsHex digest
unfolding to_lower
digest-IsHex = record {
  no_spaces = λ secret content. (refl, (refl, tt));
  lower = λ secret content. refl;
  some_digits = λ secret content. refl;
}

abbrev hash : Text → Text
hash body = []

abbrev request : Request
request = record {
  header =
      (sent hash digest client none (codes "shop") (codes " s") (codes "u___1") (pos 2)
        (codes "POST") (codes "/im/internal/msg/send") (codes "{}") (pos 990)).headers;
  method = codes "POST";
  path = codes "/im/internal/msg/send";
  body = codes "{}";
}

request-Delivers :
    Delivers
      (sent hash digest client none
        (codes "shop")
        (codes " s")
        (codes "u___1")
        (pos 2)
        (codes "POST")
        (codes "/im/internal/msg/send")
        (codes "{}")
        (pos 990))
      (codes "/im/internal/msg/send")
      request
unfolding body_request
request-Delivers = record {
  same_method = refl;
  same_path = refl;
  same_body = refl;
  same_headers = λ name. refl;
}

name_given : is_empty (trim_space (codes "shop")) ≡ false
unfolding trim_space trim_left trim_right
name_given = refl

secret_given : is_empty (trim_space (codes " s")) ≡ false
unfolding trim_space trim_left trim_right
secret_given = refl

user_given : is_empty (trim_space (codes "u___1")) ≡ false
unfolding trim_space trim_left trim_right
user_given = refl

secret_same : codes "s" ≡ trim_space (codes " s")
unfolding trim_space trim_left trim_right
secret_same = refl

shop_allowed : is_service_allowed (trim_space (codes "shop")) (codes "Shop" ∷ []) ≡ true
unfolding trim_space trim_left trim_right is_service_allowed equal_fold to_lower ◌=ₜ◌
shop_allowed = refl

signed_request-accepted_example :
    internal_auth_as_user hash digest (some config) (pos 1000) request
    ≡ accepted (
        caller hash digest client none
          (codes "shop")
          (codes " s")
          (codes "u___1")
          (pos 2)
          (codes "POST")
          (codes "/im/internal/msg/send")
          (codes "{}"))
signed_request-accepted_example =
    signed_request-accepted hash digest client none (codes "shop") (codes " s") (codes "u___1")
      (pos 2) (codes "POST") (codes "/im/internal/msg/send") (codes "{}") digest-IsHex 990 1000 300
      config request request-Delivers name_given secret_given user_given refl secret_same
      shop_allowed refl (omega arith) (omega arith) (omega arith) (omega arith) (omega arith)

-- No JSON but the answers of a server that gives the newest number 7, or fails.
abbrev no_json : Codecs
no_json = record {
  encode_register = λ x. none;
  encode_login = λ x. none;
  encode_update_user = λ x. none;
  encode_users_info = λ x. none;
  encode_users_online_status = λ x. none;
  encode_create_group = λ x. none;
  encode_join_group = λ x. none;
  encode_quit_group = λ x. none;
  encode_send_message = λ x. none;
  encode_conversation_list = λ x. none;
  encode_update_conversation = λ x. none;
  encode_mark_read = λ x. none;
  decode_user = λ x. none;
  decode_users = λ x. none;
  decode_online_statuses = λ x. none;
  decode_login = λ x. none;
  decode_group = λ x. none;
  decode_members = λ x. none;
  decode_message = λ x. none;
  decode_messages = λ x. none;
  decode_max_seq = λ x. none;
  decode_conversations = λ x. none;
  decode_page = λ x. none;
  decode_conversation = λ x. none;
  decode_max_read_seq = λ x. none;
  decode_unread_count = λ x. none;
}

abbrev platform : Platform
platform = record {
  World = ℕ;
  Value = ℕ;
  do_request = λ q w. (none, w);
  now = pos;
  json = no_json;
  decode_response = λ t.
      if t =ₜ codes "{}"
      then some (record { code = pos 0; message = []; content = none })
      else none;
  encode_value = λ v. some (v ∷ []);
  encode_query = λ q. [];
  sha256_hex = hash;
  hmac_hex = digest;
}

abbrev number_in : Text → Option ℕ
number_in [] = none
number_in (n ∷ s) = some n

failed-IsBody : IsBody platform 0 number_in [] (codes "{}") (respond (err refused))
unfolding respond error ◌=ₜ◌
failed-IsBody = record {
  to_value = λ n. n;
  text_of = λ n. n ∷ [];
  decoded = refl;
  encoded = λ n. refl;
  read_back = λ n. refl;
}

decode_api_response-respond_example :
    decode_api_response platform
      (record { status_code = pos 200; body = codes "{}" })
      (read_over 0 number_in)
    ≡ outcome platform 0 number_in [] (err refused)
decode_api_response-respond_example =
    decode_api_response-respond platform 0 number_in [] (err refused) (codes "{}") failed-IsBody
