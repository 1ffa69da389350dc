-- ===== src/Token/Store.antt =====
-- pkg/jwt/token_store.go. The tokens of a user on a platform are the fields of one Redis hash, with
-- their status as value. Redis is a parameter. Statuses are numbers here: the program writes them as
-- decimal text and reads them back with `strconv.Atoi`. ForceLogoutUser is in ForceLogout.
pub mod Kicking
pub mod ForceLogout
use nexo_im.Base.{
  ℤ, pos, eqb_ℤ, ◌≤ℤ◌, codes, Text, ◌=ₜ◌, not, Bool, true, false, ◌||◌, ◌&&◌, Option, none, some,
  is_some, List, [], ◌∷◌, ◌++◌, if◌then◌else◌, map, find, select, upsert, ◌≡◌, ◌≢◌, ◌⊎◌,
}
use nexo_im.Strconv.{format_int}
use nexo_im.Errors.{Failure, refused, Result, ok, err}
use nexo_im.Backend.Monad.{Action, pure, fail, ◌>>=◌, ◌>>◌}

abbrev pub token_status_normal : ℤ
token_status_normal = pos 1

abbrev pub token_status_kicked : ℤ
token_status_kicked = pos 2

abbrev pub token_status_logout : ℤ
token_status_logout = pos 4

pub record Field : Type 0 where
  pub token : Text
  pub status : ℤ

abbrev pub of_token : Text → Field → Bool
of_token t f = f.token =ₜ t

abbrev pub HashCommand : Type 0 → Type 0
HashCommand A = List Field → A × List Field

-- Redis hashes by key, and the lifetime of keys. A command runs as a whole on one key, or fails and
-- changes nothing.
pub record Redis : Type 1 where
  pub World : Type 0
  pub hash : World → Text → List Field
  pub command : (A : Type 0) → Text → HashCommand A → World → Result A × World
  pub expire : Text → ℤ → World → Result (Unit {0}) × World
  pub access_expire : ℤ
  pub command_lem :
      (A : Type 0) (k : Text) (q : HashCommand A) (w : World)
      → (((command A k q w).0 ≡ ok (q (hash w k)).0)
          × (hash (command A k q w).1 k ≡ (q (hash w k)).1)
          × ((l : Text) → l ≢ k → hash (command A k q w).1 l ≡ hash w l))
        ⊎ (((command A k q w).0 ≡ err refused)
            × ((l : Text) → hash (command A k q w).1 l ≡ hash w l))
  -- EXPIRE deletes the key where the lifetime is not positive, and else leaves what it holds.
  pub expire_lem :
      (k : Text) (n : ℤ) (w : World) (l : Text)
      → (hash (expire k n w).1 l ≡ hash w l)
        ⊎ ((n ≤ℤ pos 0) × (l ≡ k) × (hash (expire k n w).1 l ≡ []))

-- `keyPrefix`
abbrev pub key_prefix : Text
key_prefix = codes "nexo:token:"

-- fmt.Sprintf("%s%s:%d", …)
unfoldable pub token_key : Text → ℤ → Text
token_key user_id platform_id = key_prefix ++ (user_id ++ (b':' ∷ format_int platform_id))

unfoldable pub h_set : Text → ℤ → HashCommand (Unit {0})
h_set t s fs =
    (tt, upsert (of_token t) (λ f. record f { status = s }) (record { token = t; status = s }) fs)

unfoldable pub h_get : Text → HashCommand (Option Field)
h_get t fs = (find (of_token t) fs, fs)

unfoldable pub h_get_all : HashCommand (List Field)
h_get_all fs = (fs, fs)

unfoldable pub h_del : (Field → Bool) → HashCommand (Unit {0})
h_del gone fs = (tt, select (λ f. not (gone f)) fs)

-- The status that `ValidateTokenStatus` reports, 0 for a token that is not there.
abbrev pub status_of : Option Field → ℤ
status_of none = pos 0
status_of (some f) = f.status

module _ (r : Redis) where
  open r use {World, command, expire, access_expire}

  unfoldable pub store_token : Text → ℤ → Text → Action World (Unit {0})
  store_token user_id platform_id token = do
    command Unit (token_key user_id platform_id) (h_set token token_status_normal)
    expire (token_key user_id platform_id) access_expire

  unfoldable pub validate_token_status : Text → ℤ → Text → Action World ℤ
  validate_token_status user_id platform_id token = do
    f ← command (Option Field) (token_key user_id platform_id) (h_get token)
    pure (status_of f)

  unfoldable pub is_token_valid : Text → ℤ → Text → Action World Bool
  is_token_valid user_id platform_id token = do
    status ← validate_token_status user_id platform_id token
    pure (eqb_ℤ status token_status_normal)

  unfoldable pub invalidate_token : Text → ℤ → Text → Action World (Unit {0})
  invalidate_token user_id platform_id token = do
    f ← command (Option Field) (token_key user_id platform_id) (h_get token)
    if is_some f
        then command Unit (token_key user_id platform_id) (h_set token token_status_logout)
        else pure tt

  unfoldable pub delete_token : Text → ℤ → Text → Action World (Unit {0})
  delete_token user_id platform_id token =
      command Unit (token_key user_id platform_id) (h_del (of_token token))

  -- The loop over the tokens that were read.
  unfoldable pub kick : Text → Text → List Field → Action World (List Text)
  kick key current [] = pure []
  kick key current (f ∷ fs) =
      let rest = kick key current fs in
      if f.token =ₜ current || not (eqb_ℤ f.status token_status_normal) then rest else do
        command Unit key (h_set f.token token_status_kicked)
        kicked ← rest
        pure (f.token ∷ kicked)

  unfoldable pub kick_other_tokens : Text → ℤ → Text → Action World (List Text)
  kick_other_tokens user_id platform_id current = do
    tokens ← command (List Field) (token_key user_id platform_id) h_get_all
    kick (token_key user_id platform_id) current tokens

  unfoldable pub get_all_tokens : Text → ℤ → Action World (List Field)
  get_all_tokens user_id platform_id =
      command (List Field) (token_key user_id platform_id) h_get_all

  -- The tokens are read, and those read with another status than "normal" are deleted.
  unfoldable pub clean_expired_tokens : Text → ℤ → Action World (Unit {0})
  clean_expired_tokens user_id platform_id = do
    tokens ← command (List Field) (token_key user_id platform_id) h_get_all
    let to_delete = select (λ f. not (eqb_ℤ f.status token_status_normal)) tokens
    if not (is_some (find (λ f. true) to_delete))
        then pure tt
        else command Unit (token_key user_id platform_id)
            (h_del (λ f. is_some (find (of_token f.token) to_delete)))

  unfoldable pub force_logout_platform : Text → ℤ → Action World (Unit {0})
  force_logout_platform user_id platform_id =
      command Unit (token_key user_id platform_id) (λ fs. (tt, []))
