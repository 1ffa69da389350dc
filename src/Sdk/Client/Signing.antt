-- ===== src/Sdk/Client/Signing.antt =====
-- A request that sdk/client.go signs and internal/middleware/internal_auth.go.
use nexo_im.Base.{
  ℕ, ℤ, pos, IsInt64, leb_ℤ, Text, codes, ◌=ₜ◌, is_empty, true, false, some, [], ◌∷◌, ◌≡◌, refl,
  arith, ◌<◌, ◌^◌, if◌then◌else◌, inl, ap, ◌∙◌, length,
}
use nexo_im.Strings.{trim_space, to_lower, NoSpaces, trim_space-NoSpaces, trim_space_idem}
use nexo_im.Strconv.{parse_int, format_int}
use nexo_im.Strconv.RoundTrip.{parse_int-format_int, length-format_int, NoSpaces-format_int}
use nexo_im.Config.{Config}
use nexo_im.Middleware.InternalAuth.{
  Request, Caller, accepted, is_service_allowed, validate_internal_request, internal_auth_as_user,
  trimmed,
}
use nexo_im.Middleware.InternalAuth
use nexo_im.Middleware.InternalAuth.Skew.{Within, IsComplete, validate_internal_request_iff}
use nexo_im.Sdk.Client.{
  Client, Context, HttpRequest, platform_id_web, with_internal_auth, with_act_as_user,
  build_request_options, apply_auth_headers, body_request, sign_internal_request,
}

-- What the server sees of a request: the method, the body and the headers as they were sent, and
-- `path` as the path of the URL.
pub record Delivers (q : HttpRequest) (path : Text) (r : Request) : Type 0 where
  pub same_method : r.method ≡ q.method
  pub same_path : r.path ≡ path
  pub same_body : r.body ≡ q.body
  pub same_headers : (name : Text) → r.header name ≡ q.headers name

-- hex.EncodeToString: lower case, no white space, and not empty for a digest.
pub record IsHex (hmac_hex : Text → Text → Text) : Type 0 where
  pub no_spaces : (secret content : Text) → NoSpaces (hmac_hex secret content)
  pub lower : (secret content : Text) → to_lower (hmac_hex secret content) ≡ hmac_hex secret content
  pub some_digits : (secret content : Text) → is_empty (hmac_hex secret content) ≡ false

non_empty : (s : Text) → 0 < length s → is_empty s ≡ false
non_empty [] h = absurd (omega arith)
non_empty (c ∷ s) h = refl

module _ (sha256_hex : Text → Text) (hmac_hex : Text → Text → Text) (c₀ : Client) (ctx : Context)
    (name secret user : Text) (platform : ℤ) (method path body : Text) where
  -- A client made with WithInternalAuth, and a call with WithActAsUser.
  abbrev c : Client
  c = with_internal_auth name secret c₀

  abbrev pub sent : ℤ → HttpRequest
  sent now =
      body_request sha256_hex hmac_hex c ctx now method path body
        (build_request_options (some (with_act_as_user user platform) ∷ []))

  abbrev pub caller : Caller sha256_hex hmac_hex
  caller = record {
    service_name = trim_space name;
    user_id = trim_space user;
    platform_id = if leb_ℤ platform (pos 0) then platform_id_web else platform;
  }

  keyed_client :
      is_empty (trim_space name) ≡ false
      → is_empty (trim_space secret) ≡ false
      → c ≡ record c₀ {
        internal = some (record { service_name = trim_space name; secret = trim_space secret });
      }
  unfolding with_internal_auth
  keyed_client named keyed = rw (named, keyed) refl

  acting_user :
      is_empty (trim_space user) ≡ false
      → build_request_options (some (with_act_as_user user platform) ∷ [])
        ≡ some (record { user_id = trim_space user; platform_id = caller.platform_id })
  unfolding build_request_options with_act_as_user
  acting_user acting = rw acting refl

  -- The signature is in the header.
  headers_of :
      (now : ℤ)
      → is_empty (trim_space name) ≡ false
      → is_empty (trim_space secret) ≡ false
      → is_empty (trim_space user) ≡ false
      → let h = (sent now).headers in
        (h (codes "X-Service-Name") ≡ trim_space name)
        × (h (codes "X-Timestamp") ≡ format_int now)
        × (h (codes "X-Signature")
            ≡ InternalAuth.sign_internal_request sha256_hex hmac_hex
                (trim_space secret)
                (trim_space name)
                (format_int now)
                method
                path
                body)
        × (h (codes "X-User-Id") ≡ trim_space user)
        × (h (codes "X-Platform-Id") ≡ format_int caller.platform_id)
  unfolding body_request apply_auth_headers sign_internal_request InternalAuth.sign_internal_request
      ◌=ₜ◌
  headers_of now named keyed acting =
      rw (keyed_client named keyed) (rw (acting_user acting) (refl, refl, refl, refl, refl))

  module _ (hex : IsHex hmac_hex) where
    -- What the server reads after trimming.
    trimmed_headers :
        (now : ℤ) (r : Request)
        → Delivers (sent now) path r
        → is_empty (trim_space name) ≡ false
        → is_empty (trim_space secret) ≡ false
        → is_empty (trim_space user) ≡ false
        → (trimmed r "X-Service-Name" ≡ trim_space name)
          × (trimmed r "X-Timestamp" ≡ format_int now)
          × (trimmed r "X-Signature"
              ≡ InternalAuth.sign_internal_request sha256_hex hmac_hex
                  (trim_space secret)
                  (trim_space name)
                  (format_int now)
                  method
                  path
                  body)
          × (trimmed r "X-User-Id" ≡ trim_space user)
          × (trimmed r "X-Platform-Id" ≡ format_int caller.platform_id)
    unfolding InternalAuth.sign_internal_request
    trimmed_headers now r d named keyed acting =
        let (service_h, stamp_h, signature_h, user_h, platform_h) =
          headers_of now named keyed acting in
        (
          ap trim_space (d.same_headers (codes "X-Service-Name") ∙ service_h)
              ∙ trim_space_idem name,
          ap trim_space (d.same_headers (codes "X-Timestamp") ∙ stamp_h)
              ∙ trim_space-NoSpaces (format_int now) (NoSpaces-format_int now),
          ap trim_space (d.same_headers (codes "X-Signature") ∙ signature_h)
              ∙ trim_space-NoSpaces _ (hex.no_spaces _ _),
          ap trim_space (d.same_headers (codes "X-User-Id") ∙ user_h) ∙ trim_space_idem user,
          ap trim_space (d.same_headers (codes "X-Platform-Id") ∙ platform_h)
              ∙ trim_space-NoSpaces (format_int caller.platform_id)
                  (NoSpaces-format_int caller.platform_id),
        )

    digest :
        (s n' t : Text)
        → let signature =
            InternalAuth.sign_internal_request sha256_hex hmac_hex s n' t method path body in
          (is_empty signature ≡ false) × (to_lower signature ≡ signature)
    unfolding InternalAuth.sign_internal_request
    digest s n' t = (hex.some_digits s _, hex.lower s _)

    platform_kept :
        IsInt64 platform
        → (leb_ℤ caller.platform_id (pos 0) ≡ false)
          × (parse_int (format_int caller.platform_id) ≡ (caller.platform_id, true))
          × (is_empty (format_int caller.platform_id) ≡ false)
    platform_kept fits = (
      ground arith,
      parse_int-format_int caller.platform_id (ground arith),
      non_empty (format_int caller.platform_id) (length-format_int caller.platform_id),
    )

    -- A request of a client made with WithInternalAuth, under WithActAsUser, is accepted by
    -- InternalAuthAsUser as a call of that service for that user on that platform (on the web, where the
    -- platform is not positive), provided that the name, the secret and the user are not blank, that the
    -- server has the same secret without white space around it and allows the service, that the two clocks
    -- are at most the permitted skew apart, that hexadecimal digests are as they should be, and that
    -- the request arrives as it was sent.
    pub signed_request-accepted :
        (n m k : ℕ) (cfg : Config) (r : Request)
        → Delivers (sent (pos n)) path r
        → is_empty (trim_space name) ≡ false
        → is_empty (trim_space secret) ≡ false
        → is_empty (trim_space user) ≡ false
        → cfg.internal_auth.enabled ≡ true
        → cfg.internal_auth.secret ≡ trim_space secret
        → is_service_allowed (trim_space name) cfg.internal_auth.allowed_services ≡ true
        → cfg.internal_auth.max_skew_seconds ≡ pos k
        → k < 2 ^ 62
        → n < 2 ^ 62
        → m < 2 ^ 62
        → Within k m (pos n)
        → IsInt64 platform
        → internal_auth_as_user sha256_hex hmac_hex (some cfg) (pos m) r ≡ accepted caller
    unfolding internal_auth_as_user
    signed_request-accepted n m k cfg r d named keyed acting on same allowed skew hk hn hm near
          fits =
        let (service_t, stamp_t, signature_t, user_t, platform_t) =
          trimmed_headers (pos n) r d named keyed acting in
        let (positive, read, given) = platform_kept fits in
        let complete : IsComplete sha256_hex hmac_hex cfg r = record {
          enabled = on;
          secret = rw (same, trim_space_idem secret) keyed;
          service_named = rw service_t named;
          signed =
              rw signature_t (digest (trim_space secret) (trim_space name) (format_int (pos n))).0;
          allowed = rw service_t allowed;
        } in
        let stamp : parse_int (trimmed r "X-Timestamp") ≡ (pos n, true) =
          rw stamp_t (parse_int-format_int (pos n) (omega arith)) in
        let same_method : r.method ≡ method = unfold body_request in d.same_method in
        let same_body : r.body ≡ body = unfold body_request in d.same_body in
        let checked =
          (validate_internal_request_iff sha256_hex hmac_hex cfg r m k (pos n) complete stamp skew
              hk hm).1
            (
              inl near,
              rw (signature_t, same, service_t, stamp_t, same_method, d.same_path, same_body)
                  (digest (trim_space secret) (trim_space name) (format_int (pos n))).1,
            ) in
        rw checked (rw service_t (ground (arith, user_t, platform_t)))
