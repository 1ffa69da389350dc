-- ===== src/Backend/Monad.antt =====
-- Go functions that read and write the world and may fail. `◌>>=◌` is
-- `x, err := m; if err != nil { return err }`; `attempt` hands the error to what follows.
use nexo_im.Base.{Bool, if◌then◌else◌}
use nexo_im.Errors.{Failure, Result, ok, err}

abbrev pub Action : Type 0 → Type 0 → Type 0
Action W A = W → Result A × W

module _ {W : Type 0} where
  abbrev pub pure : {A : Type 0} → A → Action W A
  pure a w = (ok a, w)

  abbrev pub fail : {A : Type 0} → Failure → Action W A
  fail f w = (err f, w)

  abbrev pub continue : {A B : Type 0} → Result A → (A → Action W B) → Action W B
  continue (ok a) k = k a
  continue (err f) k = fail f

  -- a call that reads nothing of the world
  abbrev pub lift : {A : Type 0} → Result A → Action W A
  lift r w = (r, w)

  infixl 5 ◌>>=◌ ◌>>◌
  abbrev pub ◌>>=◌ : {A B : Type 0} → Action W A → (A → Action W B) → Action W B
  ◌>>=◌ m k w = continue (m w).0 k (m w).1

  abbrev pub ◌>>◌ : {A B : Type 0} → Action W A → Action W B → Action W B
  m >> k = m >>= λ _. k

  abbrev pub attempt : {A : Type 0} → Action W A → Action W (Result A)
  attempt m w = (ok (m w).0, (m w).1)

  -- `if err != nil { return f }`
  abbrev pub failed_as : {A : Type 0} → Failure → Result A → Action W A
  failed_as f (ok a) = pure a
  failed_as f (err _) = fail f

  abbrev pub or_fail : {A : Type 0} → Action W A → Failure → Action W A
  or_fail m f w = failed_as f (m w).0 (m w).1

  -- `if c { return f }`
  abbrev pub fail_if : Bool → Failure → Action W (Unit {0})
  fail_if c f = if c then fail f else pure tt

  abbrev pub gets : {A : Type 0} → (W → A) → Action W A
  gets f w = (ok (f w), w)
