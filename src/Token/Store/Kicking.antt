-- ===== src/Token/Store/Kicking.antt =====
-- What a login leaves of the other tokens, by pkg/jwt/token_store.go.
use nexo_im.Base.{
  ℤ, pos, eqb_ℤ, Text, ◌=ₜ◌, =ₜ_refl, =ₜ→eq, ◌≡◌, not, Bool, true, false, ◌||◌, ◌&&◌, List, [], ◌∷◌,
  if◌then◌else◌, find, upsert, arith, refl, ◌≢◌,
}
use nexo_im.Errors.{is_ok}
use nexo_im.Token.Store.{
  token_key, kick_other_tokens, h_get_all, Field, Redis, of_token, status_of, h_set, kick,
  token_status_normal, token_status_kicked,
}

-- Whether a list of fields holds a token with status "normal".
unfoldable pub listed_normal : Text → List Field → Bool
listed_normal t [] = false
listed_normal t (f ∷ fs) = of_token t f && eqb_ℤ f.status token_status_normal || listed_normal t fs

not_listed :
    (t : Text) (fs : List Field)
    → listed_normal t fs ≡ false
    → eqb_ℤ (status_of (find (of_token t) fs)) (pos 1) ≡ false
unfolding listed_normal find
not_listed t [] h = refl
not_listed t (f ∷ fs) h = ground (arith, not_listed t fs)

pub h_set_self :
    (t : Text) (s : ℤ) (fs : List Field) → status_of (find (of_token t) (h_set t s fs).1) ≡ s
unfolding h_set upsert find
h_set_self t s [] = ground (arith, =ₜ_refl t)
h_set_self t s (f ∷ fs) = ground (arith, =ₜ_refl t, h_set_self t s fs)

h_set_ne :
    (t u : Text) (s : ℤ) (fs : List Field)
    → (t =ₜ u) ≡ false
    → find (of_token u) (h_set t s fs).1 ≡ find (of_token u) fs
unfolding h_set upsert find
h_set_ne t u s [] n = ground arith
h_set_ne t u s (f ∷ fs) n = ground (arith, =ₜ→eq f.token t, h_set_ne t u s fs n)

module _ (r : Redis) where
  open r use {World, hash, command, command_lem}

  abbrev pub status : World → Text → Text → ℤ
  status w key t = status_of (find (of_token t) (hash w key))

  kick_status :
      (key current t : Text) (fs : List Field) (w : World)
      → is_ok (kick r key current fs w).0 ≡ true
      → status (kick r key current fs w).1 key t
        ≡ (if not (t =ₜ current) && listed_normal t fs then pos 2 else status w key t)
  unfolding kick listed_normal
  kick_status key current t [] w h = ground arith
  kick_status key current t (f ∷ fs) w h =
      let w₁ = (command Unit key (h_set f.token token_status_kicked) w).1 in
      ground (
        arith,
        kick_status key current t fs w,
        kick_status key current t fs w₁,
        command_lem Unit key (h_set f.token token_status_kicked) w,
        h_set_self f.token (pos 2) (hash w key),
        h_set_ne f.token t (pos 2) (hash w key),
        =ₜ→eq f.token t,
        =ₜ_refl t,
      )

  -- When the other tokens of a user and a platform have been kicked without an error, no token but
  -- the current one has the status "normal", and the current one has the status that it had.
  pub kick_other_tokens-alone :
      (user_id : Text) (platform_id : ℤ) (current t : Text) (w : World)
      → is_ok (kick_other_tokens r user_id platform_id current w).0 ≡ true
      → let after = (kick_other_tokens r user_id platform_id current w).1 in
        let key = token_key user_id platform_id in
        (t ≢ current → status after key t ≢ token_status_normal)
        × (status after key current ≡ status w key current)
  unfolding kick_other_tokens h_get_all
  kick_other_tokens-alone u p current t w h =
      let key = token_key u p in
      let w₁ = (command (List Field) key h_get_all w).1 in
      ground (
        arith,
        command_lem (List Field) key h_get_all w,
        kick_status key current t (hash w key) w₁,
        kick_status key current current (hash w key) w₁,
        not_listed t (hash w key),
        =ₜ→eq t current,
        =ₜ_refl current,
      )
