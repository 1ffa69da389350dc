-- ===== src/Token/Store/ForceLogout.antt =====
-- pkg/jwt/token_store.go: ForceLogoutUser, which scans for the keys of a user and deletes them.
pub mod Cleared
use nexo_im.Base.{
  ℕ, is_some, zero, suc, ◌==◌, ◌<◌, ◌≤◌, Text, codes, ◌=ₜ◌, Bool, true, false, ◌||◌, List, [], ◌∷◌,
  ◌++◌, All, if◌then◌else◌, ◌≡◌, ◌≢◌, ◌⊎◌,
}
use nexo_im.Errors.{Failure, refused, Result, ok, err}
use nexo_im.Backend.Monad.{Action, pure, fail, ◌>>=◌, ◌>>◌}
use nexo_im.Strings.{after_prefix}
use nexo_im.Token.Store.{Redis, key_prefix}

abbrev pub member : Text → List Text → Bool
member k [] = false
member k (x ∷ xs) = k =ₜ x || member k xs

-- The characters that mean something else in a pattern: * ? [ and the backslash.
abbrev pub is_special : ℕ → Bool
is_special c = c == b'*' || (c == b'?' || (c == b'[' || c == 92))

abbrev pub IsLiteral : Text → Type 0
IsLiteral [] = Unit
IsLiteral (c ∷ t) = (is_special c ≡ false) × IsLiteral t

-- SCAN and DEL of Redis. `ahead c w k` says that an iteration which has come to the cursor c still
-- returns the key k if it matches and stays: Redis returns in a full iteration every key that is
-- there from its start to its end. `rounds` bounds how often SCAN is called from a cursor on,
-- which Redis guarantees as long as the number of keys is bounded.
pub record Scanner (r : Redis) : Type 0 where
  pub scan : ℕ → Text → r.World → Result (List Text × ℕ) × r.World
  pub del : List Text → r.World → Result (Unit {0}) × r.World
  -- whether a glob pattern matches a key
  pub glob : Text → Text → Bool
  -- `*` matches any rest.
  pub glob_lem : (p k : Text) → IsLiteral p → glob (p ++ codes "*") k ≡ is_some (after_prefix p k)
  pub ahead : ℕ → r.World → Text → Bool
  pub rounds : ℕ → r.World → ℕ
  pub start_lem : (w : r.World) (k : Text) → r.hash w k ≢ [] → ahead 0 w k ≡ true
  pub scan_hash : (c : ℕ) (p : Text) (w : r.World) (k : Text) → r.hash (scan c p w).1 k ≡ r.hash w k
  pub scan_glob :
      (c : ℕ) (p : Text) (w : r.World) (keys : List Text) (next : ℕ)
      → (scan c p w).0 ≡ ok (keys, next)
      → All (λ k. glob p k ≡ true) keys
  pub scan_ahead :
      (c : ℕ) (p : Text) (w : r.World) (keys : List Text) (next : ℕ) (k : Text)
      → (scan c p w).0 ≡ ok (keys, next)
      → ahead c w k ≡ true
      → glob p k ≡ true
      → (member k keys ≡ true) ⊎ ((next ≢ 0) × (ahead next (scan c p w).1 k ≡ true))
  pub scan_rounds :
      (c : ℕ) (p : Text) (w : r.World) (keys : List Text) (next : ℕ)
      → (scan c p w).0 ≡ ok (keys, next)
      → next ≢ 0
      → rounds next (scan c p w).1 < rounds c w
  pub del_lem :
      (keys : List Text) (w : r.World)
      → (((del keys w).0 ≡ ok tt)
          × ((k : Text) → r.hash (del keys w).1 k ≡ (if member k keys then [] else r.hash w k)))
        ⊎ (((del keys w).0 ≡ err refused) × ((k : Text) → r.hash (del keys w).1 k ≡ r.hash w k))
  pub del_ahead :
      (c : ℕ) (keys : List Text) (w : r.World) (k : Text)
      → ahead c w k ≡ true
      → ahead c (del keys w).1 k ≡ true
  pub del_rounds : (c : ℕ) (keys : List Text) (w : r.World) → rounds c (del keys w).1 ≤ rounds c w

unfoldable pub user_pattern : Text → Text
user_pattern user_id = key_prefix ++ (user_id ++ codes ":*")

module _ (r : Redis) (s : Scanner r) where
  open r use {World}
  open s use {scan, del}

  unfoldable pub delete_found : List Text → Action World (Unit {0})
  delete_found [] = pure tt
  delete_found (k ∷ keys) = del (k ∷ keys)

  -- The loop, with fuel; where it runs out the call has not returned, which `refused` stands for.
  unfoldable pub scan_loop : ℕ → Text → ℕ → Action World (Unit {0})
  unfolding delete_found
  scan_loop zero pattern cursor = fail refused
  scan_loop (suc fuel) pattern cursor =
      let more = λ (next : ℕ). scan_loop fuel pattern next in
      do
        found ← scan cursor pattern
        delete_found found.0
        if found.1 == 0 then pure tt else more found.1

  unfoldable pub force_logout_user : ℕ → Text → Action World (Unit {0})
  unfolding user_pattern
  force_logout_user fuel user_id = scan_loop fuel (user_pattern user_id) 0
