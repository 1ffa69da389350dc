-- ===== src/Sdk/Client/Outcome.antt =====
-- What sdk/client.go makes of an answer of pkg/response/response.go.
use nexo_im.Base.{◌<◌, pos, Text, Option, none, some, ◌≡◌, refl, arith}
use nexo_im.Errors.{Code, number, no_record, refused, code, Result, ok, err}
use nexo_im.Response
use nexo_im.Response.{respond, success, error}
use nexo_im.Sdk.Types
use nexo_im.Sdk.Client.Answers.{
  Platform, Answer, answer, failed, api, read_over, decode_api_response,
}

number-pos : (c : Code) → 0 < number c
unfolding number
number-pos Code.invalid_param = omega arith
number-pos _ = omega arith

module _ (p : Platform) {A : Type 0} (zero : A) (decode : Text → Option A) (message : Text) where
  abbrev content_of : (A → p.Value) → Option A → Option p.Value
  content_of to_value none = none
  content_of to_value (some a) = some (to_value a)

  -- `body` is the JSON of the answer, with `to_value` for what JSON makes of its data, which JSON
  -- reads back.
  pub record IsBody (body : Text) (r : Response.Response A) : Type 0 where
    pub to_value : A → p.Value
    pub text_of : A → Text
    pub decoded :
        p.decode_response body
        ≡ some (record {
          code = pos r.code;
          message = message;
          content = content_of to_value r.content;
        })
    pub encoded : (a : A) → p.encode_value (to_value a) ≡ some (text_of a)
    pub read_back : (a : A) → decode (text_of a) ≡ some a

  -- A success comes back as it was, a business error with its code, and any other failure as a
  -- success with the zero value.
  abbrev pub outcome : Result A → Answer A
  outcome (ok a) = answer a
  outcome (err (code c)) = failed (api (pos (number c)) message)
  outcome (err no_record) = answer zero
  outcome (err refused) = answer zero

  -- A client of the SDK that reads an answer of the server, sent with status 200 and as JSON that is read
  -- back as it was, gets the value of a success, the code of a business error, and for every
  -- other failure the zero value of the result without an error.
  pub decode_api_response-respond :
      (r : Result A) (body : Text)
      → IsBody body (respond r)
      → decode_api_response p
          (record { status_code = pos 200; body = body })
          (read_over zero decode)
        ≡ outcome r
  unfolding decode_api_response respond success error Types.error_message
  decode_api_response-respond (ok a) body b =
      rw b.decoded (rw (b.encoded a) (rw (b.read_back a) refl))
  decode_api_response-respond (err (code c)) body b = rw b.decoded (ground (arith, number-pos c))
  decode_api_response-respond (err no_record) body b = rw b.decoded refl
  decode_api_response-respond (err refused) body b = rw b.decoded refl
