-- ===== src/Handler/Message/MaxSeq.antt =====
-- Which answers of GetMaxSeq in internal/handler/message_handler.go look like a success.
use nexo_im.Base.{Text, is_empty, false, ◌≡◌, ◌≢◌, ◌↔◌, ◌⊎◌, inl, inr, none, some, refl, arith, ℤ}
use nexo_im.Errors.{no_record, refused, Code, code, number, Result, ok, err}
use nexo_im.Backend.{Backend}
use nexo_im.Response.{Response, respond, success, error}
use nexo_im.Service.Message.Pull
use nexo_im.Handler.Message.{get_max_seq}

number-ne-zero : (c : Code) → number c ≢ 0
unfolding number
number-ne-zero c = ground arith

-- An answer with code 0: with content for a success, and without for a failure that is no business
-- error.
abbrev pub LooksGood : Result ℤ → Response ℤ → Type 0
LooksGood r a =
    ((n : ℤ) × (r ≡ ok n) × (a.content ≡ some n))
    ⊎ (((r ≡ err no_record) ⊎ (r ≡ err refused)) × (a.content ≡ none))

respond_good : (r : Result ℤ) → (respond r).code ≡ 0 → LooksGood r (respond r)
unfolding respond success error
respond_good (ok n) h = inl (n, refl, refl)
respond_good (err no_record) h = inr (inl refl, refl)
respond_good (err refused) h = inr (inr refl, refl)
respond_good (err (code c)) h = absurd (number-ne-zero c h)

respond_zero : (r : Result ℤ) → LooksGood r (respond r) → (respond r).code ≡ 0
unfolding respond success error
respond_zero (ok n) h = refl
respond_zero (err no_record) h = refl
respond_zero (err refused) h = refl
respond_zero (err (code c)) h = ground arith

module _ (b : Backend) where
  open b use {World}

  -- For a user and a conversation that are named, GetMaxSeq answers with code 0 exactly if the service
  -- succeeds, and then with its number, or fails with an error of the database or of Redis that is no
  -- business error, and then without content; with any other failure the code is not 0.
  pub get_max_seq_code :
      (user_id conversation_id : Text) (w : World)
      → is_empty user_id ≡ false
      → is_empty conversation_id ≡ false
      → let answer = (get_max_seq b user_id conversation_id w).0 in
        (answer.code ≡ 0) ↔ LooksGood (Pull.get_max_seq b user_id conversation_id w).0 answer
  unfolding get_max_seq
  get_max_seq_code u c w hu hc =
      let r = (Pull.get_max_seq b u c w).0 in rw (hu, hc) (respond_good r, respond_zero r)
