-- ===== src/Common/Password.antt =====
-- common/password.go. HMAC-SHA-256 and base64url are parameters.
use nexo_im.Base.{ℤ, pos, pos_part, leb_ℤ, ltb_ℤ, length, take, ◌||◌, Text, if◌then◌else◌}

unfoldable pub generate_password_from_user_id :
    (Text → Text → Text) → (Text → Text) → Text → Text → ℤ → Text
generate_password_from_user_id hmac raw_url_encoding user_id secret n_bytes =
    let sum = hmac secret user_id in
    let kept =
      if leb_ℤ n_bytes (pos 0) || ltb_ℤ (pos (length sum)) n_bytes then pos 16 else n_bytes in
    raw_url_encoding (take (pos_part kept) sum)
