-- ===== src/Backend/Leaves.antt =====
-- What an action leaves of the world, however it ends: rules for each way to build an action, for
-- any reflexive and transitive relation between the world before and the world after.
use nexo_im.Backend.{Backend}
use nexo_im.Base.{◌≡◌, ◌∙◌, refl, Bool, true, false, if◌then◌else◌}
use nexo_im.Errors.{Failure, Result, ok, err}
use nexo_im.Backend.Monad.{
  Action, pure, fail, continue, ◌>>=◌, attempt, or_fail, failed_as, fail_if, lift,
}

pub record Order (W : Type 0) : Type 1 where
  pub R : W → W → Type 0
  pub same : (w : W) → R w w
  pub chain : (u v w : W) → R u v → R v w → R u w

module _ {W : Type 0} (o : Order W) where
  open o use {R, same, chain}

  pub record Leaves {A : Type 0} (m : Action W A) : Type 0 where
    pub at : (w : W) → R w (m w).1

  pub Leaves-pure : {A : Type 0} (a : A) → Leaves (pure a)
  Leaves-pure a = record { at = same }

  pub Leaves-fail : (A : Type 0) (f : Failure) → Leaves (fail {A = A} f)
  Leaves-fail A f = record { at = same }

  pub Leaves-lift : {A : Type 0} (r : Result A) → Leaves (lift r)
  Leaves-lift r = record { at = same }

  leaves_continue :
      {A B : Type 0} (r : Result A) (k : A → Action W B) (w : W)
      → ((a : A) → Leaves (k a))
      → R w (continue r k w).1
  leaves_continue (ok a) k w h = (h a).at w
  leaves_continue (err f) k w h = same w

  pub Leaves-bind :
      {A B : Type 0} (m : Action W A) (k : A → Action W B)
      → Leaves m
      → ((a : A) → Leaves (k a))
      → Leaves (m >>= k)
  Leaves-bind m k h hk = record {
    at = λ w. chain w (m w).1 _ (h.at w) (leaves_continue (m w).0 k (m w).1 hk);
  }

  pub Leaves-if :
      {A : Type 0} (c : Bool) (m n : Action W A) → Leaves m → Leaves n → Leaves (if c then m else n)
  Leaves-if true m n h k = h
  Leaves-if false m n h k = k

  leaves_failed_as : {A : Type 0} (f : Failure) (r : Result A) (w : W) → R w (failed_as f r w).1
  leaves_failed_as f (ok a) w = same w
  leaves_failed_as f (err g) w = same w

  pub Leaves-or_fail : {A : Type 0} (m : Action W A) (f : Failure) → Leaves m → Leaves (or_fail m f)
  Leaves-or_fail m f h = record {
    at = λ w. chain w (m w).1 _ (h.at w) (leaves_failed_as f (m w).0 (m w).1);
  }

  pub Leaves-attempt : {A : Type 0} (m : Action W A) → Leaves m → Leaves (attempt m)
  Leaves-attempt m h = record { at = h.at }

  pub Leaves-fail_if : (c : Bool) (f : Failure) → Leaves (fail_if c f)
  Leaves-fail_if true f = record { at = same }
  Leaves-fail_if false f = record { at = same }

-- The order of actions that only read.
abbrev pub reading : (b : Backend) → Order b.World
reading b = record {
  R = λ v w. (b.db w ≡ b.db v) × (b.cache w ≡ b.cache v);
  same = λ w. (refl, refl);
  chain = λ u v w h k. (k.0 ∙ h.0, k.1 ∙ h.1);
}

pub ruleset leaves = (
  Leaves-pure, Leaves-fail, Leaves-lift, Leaves-bind, Leaves-if, Leaves-or_fail, Leaves-attempt,
  Leaves-fail_if,
)
