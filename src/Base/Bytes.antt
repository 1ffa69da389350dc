-- ===== src/Base/Bytes.antt =====
-- Go's strings as their bytes, with Go's `==` on them.
use Prim.Native.Char.{code}
use Prim.Native.String.{String}
use Prim.Native.Nat.{ℕ}
use mathlib.Core.Path.{◌≡◌, refl}
use mathlib.Core.Logic.{◌↔◌, ◌≢◌}
use mathlib.Core.Bool.{Bool, true, false, ◌&&◌, ◌||◌}
use mathlib.Core.Option
use mathlib.Core.Option.{Option, none, some}
use mathlib.Core.List.{List, [], ◌∷◌, ◌++◌}
use native.Mathlib.Omega.{arith}
use nexo_im.Base.Tests.{◌==◌, ltb, if◌then◌else◌}

abbrev pub Text : Type 0
Text = List ℕ

-- The bytes of an ASCII literal.
abbrev pub codes : String → Text
codes String.[] = []
codes (String.◌∷◌ c s) = code c ∷ codes s

infix 50 ◌=ₜ◌
unfoldable pub ◌=ₜ◌ : Text → Text → Bool
[] =ₜ [] = true
[] =ₜ (d ∷ t) = false
(c ∷ s) =ₜ [] = false
(c ∷ s) =ₜ (d ∷ t) = c == d && s =ₜ t

pub =ₜ_refl : (s : Text) → (s =ₜ s) ≡ true
unfolding ◌=ₜ◌
=ₜ_refl [] = refl
=ₜ_refl (c ∷ s) = ground (arith, =ₜ_refl s)

pub =ₜ→eq : (s t : Text) → (s =ₜ t) ≡ true → s ≡ t
unfolding ◌=ₜ◌
=ₜ→eq [] [] h = refl
=ₜ→eq [] (d ∷ t) h = cc
=ₜ→eq (c ∷ s) [] h = cc
=ₜ→eq (c ∷ s) (d ∷ t) h = ground (arith, =ₜ→eq s t)

pub =ₜ→ne : (s t : Text) → (s =ₜ t) ≡ false → s ≢ t
=ₜ→ne s t h e = ground (arith, =ₜ_refl s)

pub =ₜ_iff : (s t : Text) → ((s =ₜ t) ≡ true) ↔ (s ≡ t)
=ₜ_iff s t = (=ₜ→eq s t, λ e. ground (arith, =ₜ_refl s))

pub =ₜ_comm : (s t : Text) → (s =ₜ t) ≡ (t =ₜ s)
unfolding ◌=ₜ◌
=ₜ_comm [] [] = refl
=ₜ_comm [] (d ∷ t) = refl
=ₜ_comm (c ∷ s) [] = refl
=ₜ_comm (c ∷ s) (d ∷ t) = ground (arith, =ₜ_comm s t)

abbrev pub is_empty : Text → Bool
is_empty [] = true
is_empty (c ∷ s) = false

-- Go's `<` on strings.
infix 50 ◌<ₜ◌
unfoldable pub ◌<ₜ◌ : Text → Text → Bool
[] <ₜ [] = false
[] <ₜ (d ∷ t) = true
(c ∷ s) <ₜ [] = false
(c ∷ s) <ₜ (d ∷ t) = ltb c d || (c == d && s <ₜ t)

pub <ₜ_asymm : (s t : Text) → (s <ₜ t) ≡ true → (t <ₜ s) ≡ false
unfolding ◌<ₜ◌
<ₜ_asymm [] [] h = cc
<ₜ_asymm [] (d ∷ t) h = refl
<ₜ_asymm (c ∷ s) [] h = cc
<ₜ_asymm (c ∷ s) (d ∷ t) h = ground (arith, <ₜ_asymm s t)

pub <ₜ_total : (s t : Text) → (s <ₜ t) ≡ false → (t <ₜ s) ≡ false → s ≡ t
unfolding ◌<ₜ◌
<ₜ_total [] [] h k = refl
<ₜ_total [] (d ∷ t) h k = cc
<ₜ_total (c ∷ s) [] h k = cc
<ₜ_total (c ∷ s) (d ∷ t) h k = ground (arith, <ₜ_total s t)

-- strings.Index(t, sep) for one byte, with the slices `t[:idx]` and `t[idx+1:]`.
unfoldable pub cut : ℕ → Text → Option (Text × Text)
cut sep [] = none
cut sep (c ∷ t) =
    if c == sep then some ([], t) else Option.map (λ (p : Text × Text). (c ∷ p.0, p.1)) (cut sep t)

abbrev pub Lacks : ℕ → Text → Type 0
Lacks sep [] = Unit
Lacks sep (c ∷ t) = (c ≢ sep) × Lacks sep t

-- The cut is at the first separator.
pub cut-append : (sep : ℕ) (s t : Text) → Lacks sep s → cut sep (s ++ (sep ∷ t)) ≡ some (s, t)
unfolding cut
cut-append sep [] t h = ground arith
cut-append sep (c ∷ s) t h = ground (arith, cut-append sep s t h.1)
