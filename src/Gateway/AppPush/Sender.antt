-- ===== src/Gateway/AppPush/Sender.antt =====
-- internal/gateway/app_push.go: the calls of the app gateway. The HTTP client of hertz and sonic are
-- parameters, and so is the trace id of the context.
use nexo_im.Base.{
  ℤ, pos, ltb_ℤ, leb_ℤ, eqb_ℤ, not, ◌||◌, Text, codes, is_empty, Bool, Option, none, some, List, [],
  ◌∷◌, ◌++◌, if◌then◌else◌,
}
use nexo_im.Strings.{trim_space, trim_right_byte}
use nexo_im.Gateway.AppPush.{AppPushRequest, AppPushData}

pub record SendPushBody : Type 0 where
  pub user_id : ℤ
  pub biz_type : Text
  pub title : Text
  pub body : Text
  pub data_json : Text
  -- the user of `common_param`
  pub common_user_id : ℤ

pub record GetUserInfoReq : Type 0 where
  pub user_id : ℤ
  pub common_user_id : ℤ

pub record GatewayResp : Type 0 where
  pub code : ℤ
  pub message : Text

pub record GatewayUserInfo : Type 0 where
  pub name : Text
  pub unique_id : Text

-- `user_info` is nil also where the data around it are.
pub record GetUserInfoResp : Type 0 where
  pub code : ℤ
  pub message : Text
  pub user_info : Option GatewayUserInfo

pub record PostRequest : Type 0 where
  pub url : Text
  pub headers : List (Text × Text)
  pub body : Text

pub record PostResponse : Type 0 where
  pub status_code : ℤ
  pub body : Text

pub data PushError : Type 0 where
  nil_request nil_client marshal_data_failed marshal_failed send_failed decode_failed : PushError
  invalid_user_id : ℤ → PushError
  bad_status : ℤ → Text → PushError
  bad_code : ℤ → Text → PushError

pub data Pushed (A : Type 0) : Type 0 where
  done : A → Pushed A
  failed : PushError → Pushed A

pub record Gateway : Type 1 where
  pub World : Type 0
  pub has_client : Bool
  pub base_url : Text
  pub trace_id : Text
  pub do_request : PostRequest → World → Option PostResponse × World
  pub encode_data : AppPushData → Option Text
  pub encode_push : SendPushBody → Option Text
  pub decode_push : Text → Option GatewayResp
  pub encode_user_info : GetUserInfoReq → Option Text
  pub decode_user_info : Text → Option GetUserInfoResp

module _ (g : Gateway) where
  open g use {World}

  abbrev headers_of : Text → List (Text × Text)
  headers_of trace_id =
      (codes "Content-Type", codes "application/json")
      ∷ (if is_empty trace_id
          then []
          else (codes "Trace-Id", trace_id) ∷ ((codes "X-Trace-Id", trace_id) ∷ []))

  unfoldable pub post_request : Text → Text → PostRequest
  post_request path payload = record {
    url = trim_right_byte b'/' g.base_url ++ path;
    headers = headers_of g.trace_id;
    body = payload;
  }

  abbrev bad : ℤ → Bool
  bad status = ltb_ℤ status (pos 200) || leb_ℤ (pos 300) status

  abbrev read_push : Option GatewayResp → Pushed (Unit {0})
  read_push none = failed decode_failed
  read_push (some resp) =
      if not (eqb_ℤ resp.code (pos 0)) then failed (bad_code resp.code resp.message) else done tt

  abbrev answer_of_push : Option PostResponse × World → Pushed (Unit {0}) × World
  answer_of_push (none, w) = (failed send_failed, w)
  answer_of_push (some r, w) = (
    if bad r.status_code
        then failed (bad_status r.status_code r.body)
        else read_push (g.decode_push r.body),
    w,
  )

  abbrev push_payload : Option Text → World → Pushed (Unit {0}) × World
  push_payload none w = (failed marshal_failed, w)
  push_payload (some payload) w =
      answer_of_push (g.do_request (post_request (codes "/api/push/send_push") payload) w)

  abbrev push_with_data : AppPushRequest → Option Text → World → Pushed (Unit {0}) × World
  push_with_data req none w = (failed marshal_data_failed, w)
  push_with_data req (some data_json) w =
      push_payload
        (g.encode_push (record {
          user_id = req.user_id;
          biz_type = codes "im";
          title = req.title;
          body = req.body;
          data_json = data_json;
          common_user_id = req.user_id;
        }))
        w

  -- The map of data always has its eight keys, so it is always marshalled.
  unfoldable pub send_push : Option AppPushRequest → World → Pushed (Unit {0}) × World
  unfolding post_request
  send_push none w = (failed nil_request, w)
  send_push (some req) w =
      if not g.has_client
      then (failed nil_client, w)
      else push_with_data req (g.encode_data req.data_map) w

  abbrev shown_name : Option GatewayUserInfo → Text
  shown_name none = []
  shown_name (some u) =
      let name = trim_space u.name in if is_empty name then trim_space u.unique_id else name

  abbrev read_user : Option GetUserInfoResp → Pushed Text
  read_user none = failed decode_failed
  read_user (some resp) =
      if not (eqb_ℤ resp.code (pos 0))
      then failed (bad_code resp.code resp.message)
      else done (shown_name resp.user_info)

  abbrev answer_of_user : Option PostResponse × World → Pushed Text × World
  answer_of_user (none, w) = (failed send_failed, w)
  answer_of_user (some r, w) = (
    if bad r.status_code
        then failed (bad_status r.status_code r.body)
        else read_user (g.decode_user_info r.body),
    w,
  )

  abbrev user_payload : Option Text → World → Pushed Text × World
  user_payload none w = (failed marshal_failed, w)
  user_payload (some payload) w =
      answer_of_user (g.do_request (post_request (codes "/api/user/get_user_info") payload) w)

  unfoldable pub get_user_display_name : ℤ → World → Pushed Text × World
  unfolding post_request
  get_user_display_name user_id w =
      if leb_ℤ user_id (pos 0)
      then (failed (invalid_user_id user_id), w)
      else if not g.has_client
      then (failed nil_client, w)
      else user_payload
          (g.encode_user_info (record { user_id = user_id; common_user_id = user_id })) w
