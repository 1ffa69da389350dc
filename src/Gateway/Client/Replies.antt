-- ===== src/Gateway/Client/Replies.antt =====
-- How internal/gateway/client.go answers a request.
use nexo_im.Base.{
  ℕ, Text, codes, ◌=ₜ◌, is_empty, Bool, true, false, Option, none, some, ◌≡◌, refl, Bool-cases, inl,
  inr, not, ◌&&◌,
}
use nexo_im.Errors.{Failure, Result, ok, err}
use nexo_im.Backend.{Backend}
use nexo_im.Gateway.Wire.{Json, WsRequest, WsResponse}
use nexo_im.Gateway.Handlers.{Node}
use nexo_im.Gateway.Client.{
  answered, handle_decoded, SendError, Session, Peer, write_response, error_response, response_to,
  dispatch, handle_message,
}

module _ (json : Json) (b : Backend) (capacity : ℕ) (error_text : Failure → Text) where
  abbrev pub Echoes : WsRequest → WsResponse → Type 0
  Echoes req resp =
      (resp.req_identifier ≡ req.req_identifier)
      × (resp.msg_incr ≡ req.msg_incr)
      × (resp.operation_id ≡ req.operation_id)

  -- One response is written, and it belongs to the request.
  abbrev pub Answered : WsRequest → Session → Option SendError × Peer b.World → Type 0
  Answered req s after =
      (resp : WsResponse) × Echoes req resp
      × (after.0 ≡ (write_response json resp s).0)
      × (after.1.session ≡ (write_response json resp s).1)

  Echoes-response_to :
      (req : WsRequest) (r : Result Text) → Echoes req (response_to error_text req r)
  Echoes-response_to req (ok a) = (refl, refl, refl)
  Echoes-response_to req (err f) = (refl, refl, refl)

  answered_once :
      (req : WsRequest) (s : Session) (x : Option (Result Text) × Node b.World)
      → Answered req s (answered json b capacity error_text req s x)
  answered_once req s (none, n) =
      (error_response req (codes "invalid protocol"), (refl, refl, refl), refl, refl)
  answered_once req s (some r, n) =
      (response_to error_text req r, Echoes-response_to req r, refl, refl)

  -- Whether a request names another sender than the client's user.
  abbrev pub is_foreign : WsRequest → Session → Bool
  is_foreign req s = not (is_empty req.send_id) && not (req.send_id =ₜ s.client.user_id)

  decoded_once :
      (req : WsRequest) (valid : Bool) (p : Peer b.World)
      → let after = handle_decoded json b capacity error_text (req, valid) p in
        Answered req p.session after
        × (valid ≡ false → after.1.node ≡ p.node)
        × (is_foreign req p.session ≡ true → after.1.node ≡ p.node)
  decoded_once req false p = (
    (error_response req (codes "invalid protocol"), (refl, refl, refl), refl, refl),
    (λ e. refl),
    λ e. refl,
  )
  decoded_once req true p = elim (Bool-cases (is_foreign req p.session)) [
    | inl foreign ↦ rw foreign (
      (error_response req (codes "user Id mismatch"), (refl, refl, refl), refl, refl),
      (λ e. refl),
      λ e. refl,
    )
    | inr own ↦ rw own (
      answered_once req p.session
          (dispatch json b capacity error_text p.session.client.user_id req p.node),
      (λ e. cc),
      λ e. cc,
    )
  ]

  -- The request that a message holds is answered by one response that carries its identifier, its
  -- counter and its operation id, whatever the request. If it does not decode, or names another sender
  -- than the client's user, the services and the push queue are as they were.
  pub handle_message-Answered :
      (message : Text) (p : Peer b.World)
      → let req = (json.decode_request message).0 in
        let after = handle_message json b capacity error_text message p in
        Answered req p.session after
        × (((json.decode_request message).1 ≡ false) → after.1.node ≡ p.node)
        × (is_foreign req p.session ≡ true → after.1.node ≡ p.node)
  unfolding handle_message
  handle_message-Answered message p = let d = json.decode_request message in decoded_once d.0 d.1 p
