-- ===== src/Errors.antt =====
-- pkg/errcode/errcode.go: the business errors; and the results of calls that may fail. The message
-- of an error, and what `Wrap` adds to it, is not modelled: `Wrap` keeps the code.
use nexo_im.Base.{Bool, true, false, ℕ, ◌≡◌, ◌⊎◌, refl, inl, inr}

pub data Code : Type 0 where
  invalid_param internal_server unauthorized forbidden not_found too_many_requests : Code
  no_permission token_invalid token_expired token_missing token_mismatch login_failed : Code
  user_not_found user_exists password_wrong group_not_found group_dismissed : Code
  not_group_member member_not_active already_group_member not_group_owner not_group_admin : Code
  cannot_kick_owner message_not_found message_duplicate conv_not_found seq_alloc_failed : Code
  send_failed pull_failed conn_over_limit conn_closed invalid_protocol push_failed : Code

unfoldable pub number : Code → ℕ
number invalid_param = 1001
number internal_server = 1002
number unauthorized = 1003
number forbidden = 1004
number not_found = 1005
number too_many_requests = 1006
number no_permission = 1007
number token_invalid = 2001
number token_expired = 2002
number token_missing = 2003
number token_mismatch = 2004
number login_failed = 2005
number user_not_found = 2006
number user_exists = 2007
number password_wrong = 2008
number group_not_found = 3001
number group_dismissed = 3002
number not_group_member = 3003
number member_not_active = 3004
number already_group_member = 3005
number not_group_owner = 3006
number not_group_admin = 3007
number cannot_kick_owner = 3008
number message_not_found = 4001
number message_duplicate = 4002
number conv_not_found = 4003
number seq_alloc_failed = 4004
number send_failed = 4005
number pull_failed = 4006
number conn_over_limit = 5001
number conn_closed = 5002
number invalid_protocol = 5003
number push_failed = 5004

-- A Go `error`: gorm.ErrRecordNotFound or redis.Nil, another error of a driver, or an
-- `*errcode.Error`.
pub data Failure : Type 0 where
  no_record refused : Failure
  code : Code → Failure

pub data Result (A : Type 0) : Type 0 where
  ok : A → Result A
  err : Failure → Result A

abbrev pub is_ok : {A : Type 0} → Result A → Bool
is_ok (ok a) = true
is_ok (err f) = false

pub Result-cases :
    {A : Type 0} (r : Result A) → ((a : A) × (r ≡ ok a)) ⊎ ((f : Failure) × (r ≡ err f))
Result-cases (ok a) = inl (a, refl)
Result-cases (err f) = inr (f, refl)
