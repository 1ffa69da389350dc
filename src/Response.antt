-- ===== src/Response.antt =====
-- pkg/response/response.go: the body of an answer to an HTTP request. The message in it is not
-- modelled.
use nexo_im.Base.{ℕ, Option, none, some}
use nexo_im.Errors.{
  Failure, no_record, refused, Code, code, number, unauthorized, forbidden, Result, ok, err,
}

pub record Response (A : Type 0) : Type 0 where
  pub code : ℕ
  pub content : Option A

-- A failure that is no `*errcode.Error` leaves `code` as it was declared.
abbrev pub code_of : Failure → ℕ
code_of (code c) = number c
code_of no_record = 0
code_of refused = 0

module _ {A : Type 0} where
  unfoldable pub success : A → Response A
  success a = record { code = 0; content = some a }

  unfoldable pub error : Failure → Response A
  error f = record { code = code_of f; content = none }

  unfoldable pub error_with_code : Code → Response A
  error_with_code c = record { code = number c; content = none }

  -- `if err != nil { response.Error(…); return }; response.Success(…)`
  unfoldable pub respond : Result A → Response A
  unfolding success error
  respond (ok a) = success a
  respond (err f) = error f

-- Unauthorized and Forbidden, with the status that they send.
unfoldable pub unauthorized_response : {A : Type 0} → ℕ × Response A
unfolding error_with_code
unauthorized_response = (401, error_with_code unauthorized)

unfoldable pub forbidden_response : {A : Type 0} → ℕ × Response A
unfolding error_with_code
forbidden_response = (403, error_with_code forbidden)
