-- ===== src/Base/Rows.antt =====
-- SQL tables as lists of rows: WHERE is a Boolean test.
use mathlib.Core.Path.{◌≡◌, refl}
use mathlib.Core.Bool.{Bool, true, false}
use mathlib.Core.Option.{Option, none, some}
use mathlib.Core.List.{List, [], ◌∷◌, ◌++◌}
use native.Mathlib.Omega.{arith}
use nexo_im.Base.Tests.{if◌then◌else◌, is_some}

module _ {ℓ} {A : Type ℓ} where
  -- SELECT … WHERE p LIMIT 1
  unfoldable pub find : (A → Bool) → List A → Option A
  find p [] = none
  find p (x ∷ xs) = if p x then some x else find p xs

  -- SELECT … WHERE p
  unfoldable pub select : (A → Bool) → List A → List A
  select p [] = []
  select p (x ∷ xs) = if p x then x ∷ select p xs else select p xs

  -- UPDATE … SET f WHERE p
  unfoldable pub update : (A → Bool) → (A → A) → List A → List A
  update p f [] = []
  update p f (x ∷ xs) = (if p x then f x else x) ∷ update p f xs

  -- INSERT row ON DUPLICATE KEY UPDATE f, where `p` is the test for the row's key.
  unfoldable pub upsert : (A → Bool) → (A → A) → A → List A → List A
  upsert p f row [] = row ∷ []
  upsert p f row (x ∷ xs) = if p x then f x ∷ xs else x ∷ upsert p f row xs

  pub find_holds : (p : A → Bool) (xs : List A) (a : A) → find p xs ≡ some a → p a ≡ true
  unfolding find
  find_holds p [] a h = cc
  find_holds p (x ∷ xs) a h = ground (arith, find_holds p xs a)

  -- What a row that an upsert touches becomes.
  abbrev pub merged : (A → A) → A → Option A → A
  merged f row none = row
  merged f row (some x) = f x

  pub find-upsert_self :
      (p : A → Bool) (f : A → A) (row : A) (xs : List A)
      → p row ≡ true
      → ((x : A) → p x ≡ true → p (f x) ≡ true)
      → find p (upsert p f row xs) ≡ some (merged f row (find p xs))
  unfolding find upsert
  find-upsert_self p f row [] h k = ground arith
  find-upsert_self p f row (x ∷ xs) h k = ground (arith, k x, find-upsert_self p f row xs h k)

  -- A row with another key stays as it was.
  pub find-upsert_ne :
      (p q : A → Bool) (f : A → A) (row : A) (xs : List A)
      → q row ≡ false
      → ((x : A) → p x ≡ true → (q x ≡ false) × (q (f x) ≡ false))
      → find q (upsert p f row xs) ≡ find q xs
  unfolding find upsert
  find-upsert_ne p q f row [] h k = ground arith
  find-upsert_ne p q f row (x ∷ xs) h k = ground (arith, k x, find-upsert_ne p q f row xs h k)

  pub find-update_self :
      (p : A → Bool) (f : A → A) (xs : List A) (a : A)
      → find p xs ≡ some a
      → ((x : A) → p x ≡ true → p (f x) ≡ true)
      → find p (update p f xs) ≡ some (f a)
  unfolding find update
  find-update_self p f [] a h k = cc
  find-update_self p f (x ∷ xs) a h k = ground (arith, k x, find-update_self p f xs a)

  pub find-update_absent :
      (p : A → Bool) (f : A → A) (xs : List A) → find p xs ≡ none → find p (update p f xs) ≡ none
  unfolding find update
  find-update_absent p f [] h = refl
  find-update_absent p f (x ∷ xs) h = ground (arith, find-update_absent p f xs)

  pub find-update_ne :
      (p q : A → Bool) (f : A → A) (xs : List A)
      → ((x : A) → p x ≡ true → (q x ≡ false) × (q (f x) ≡ false))
      → find q (update p f xs) ≡ find q xs
  unfolding find update
  find-update_ne p q f [] k = refl
  find-update_ne p q f (x ∷ xs) k = ground (arith, k x, find-update_ne p q f xs k)

  pub find-append :
      (p : A → Bool) (xs ys : List A)
      → find p (xs ++ ys) ≡ (if is_some (find p xs) then find p xs else find p ys)
  unfolding find
  find-append p [] ys = refl
  find-append p (x ∷ xs) ys = ground (arith, find-append p xs ys)

  pub find-append_new :
      (p : A → Bool) (xs : List A) (a : A)
      → find p xs ≡ none
      → p a ≡ true
      → find p (xs ++ a ∷ []) ≡ some a
  unfolding find
  find-append_new p [] a h k = ground arith
  find-append_new p (x ∷ xs) a h k = ground (arith, find-append_new p xs a)
