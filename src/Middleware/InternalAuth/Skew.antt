-- ===== src/Middleware/InternalAuth/Skew.antt =====
-- How old the timestamps may be that internal/middleware/internal_auth.go accepts.
use nexo_im.Base.{
  =ₜ_refl, =ₜ→eq, subst, Bool, [], ◌∷◌, refl, true, Text, is_empty, some, Bool-cases, inl, inr,
  negsuc, ℕ, ℤ, pos, pos_part, neg_part, ◌-ℤ◌, wrap64, IsInt64, ◌+◌, ◌^◌, ◌<◌, ◌≤◌, ◌≡◌, ◌⊎◌, ◌↔◌,
  false, arith,
}
use nexo_im.Middleware.InternalAuth.{abs_int64, too_far}
use nexo_im.Strings.{trim_space, to_lower}
use nexo_im.Strconv.{parse_int}
use nexo_im.Strconv.RoundTrip.{parse_int-IsInt64}
use nexo_im.Config.{Config}
use nexo_im.Middleware.InternalAuth.{
  Request, accepted, trimmed, is_service_allowed, sign_internal_request, check_signature,
  check_headers, validate_internal_request,
}

-- ts and n are at most k apart
abbrev pub Within : ℕ → ℕ → ℤ → Type 0
Within k n ts = (pos_part ts ≤ n + neg_part ts + k) × (n + neg_part ts ≤ pos_part ts + k)

-- ts is n - 2^63
abbrev pub IsOpposite : ℕ → ℤ → Type 0
IsOpposite n ts = neg_part ts + n ≡ 2 ^ 63

too_far_iff :
    (k n : ℕ) (ts : ℤ)
    → k < 2 ^ 62
    → n < 2 ^ 62
    → IsInt64 ts
    → (too_far (pos n) ts (pos k) ≡ false) ↔ (Within k n ts ⊎ IsOpposite n ts)
unfolding too_far abs_int64 wrap64 ◌-ℤ◌
too_far_iff k n (pos t) hk hn h = (λ e. ground arith, λ e. ground arith)
too_far_iff k n (negsuc t) hk hn h = (λ e. ground arith, λ e. ground arith)

is_empty_of_number : (s : Text) (ts : ℤ) → parse_int s ≡ (ts, true) → is_empty s ≡ false
unfolding parse_int
is_empty_of_number [] ts e = cc
is_empty_of_number (b ∷ s) ts e = refl

module _ (sha256_hex : Text → Text) (hmac_hex : Text → Text → Text) (c : Config) (r : Request) where
  abbrev service : Text
  service = trimmed r "X-Service-Name"

  abbrev stamp : Text
  stamp = trimmed r "X-Timestamp"

  abbrev signature : Text
  signature = trimmed r "X-Signature"

  -- Where internal calls are enabled with a secret and the request names an allowed service and a
  -- timestamp and carries a signature.
  pub record IsComplete : Type 0 where
    pub enabled : c.internal_auth.enabled ≡ true
    pub secret : is_empty (trim_space c.internal_auth.secret) ≡ false
    pub service_named : is_empty service ≡ false
    pub signed : is_empty signature ≡ false
    pub allowed : is_service_allowed service c.internal_auth.allowed_services ≡ true

  -- Where internal calls are enabled with a secret and the request names an allowed service and the
  -- timestamp ts and carries a signature, with the clock n and the permitted skew k below 2^62, the
  -- request is accepted exactly if its signature is that of its content and ts is at most k from n, or is
  -- n - 2^63.
  pub validate_internal_request_iff :
      (n k : ℕ) (ts : ℤ)
      → IsComplete
      → parse_int stamp ≡ (ts, true)
      → c.internal_auth.max_skew_seconds ≡ pos k
      → k < 2 ^ 62
      → n < 2 ^ 62
      → (validate_internal_request sha256_hex hmac_hex (some c) (pos n) r ≡ accepted service) ↔ (
          (Within k n ts ⊎ IsOpposite n ts)
          × (to_lower signature
              ≡ sign_internal_request sha256_hex hmac_hex c.internal_auth.secret service stamp
                  r.method r.path r.body))
  unfolding validate_internal_request check_headers check_signature
  validate_internal_request_iff n k ts v e skew hk hn =
      let fits : IsInt64 ts = subst (λ (p : ℤ × Bool). IsInt64 p.0) e (parse_int-IsInt64 stamp) in
      let far = too_far_iff k n ts hk hn fits in
      let expected =
        sign_internal_request sha256_hex hmac_hex c.internal_auth.secret service stamp r.method
          r.path r.body in
      let given = is_empty_of_number stamp ts e in
      (
        λ a. elim (Bool-cases (too_far (pos n) ts (pos k))) [
          | inl old ↦ absurd (ground arith)
          | inr fresh ↦ (far.0 fresh, ground (arith, =ₜ→eq (to_lower signature) expected))
        ],
        λ a. ground (arith, far.1 a.0, =ₜ_refl expected),
      )
