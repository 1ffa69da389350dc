-- ===== src/Strings.antt =====
-- Go's package strings on bytes, as far as the program uses it. Of the white space and the letters
-- outside ASCII, which TrimSpace and EqualFold also know, nothing is modelled.
use nexo_im.Base.{
  inr, inl, Bool-cases, ℕ, ◌+◌, ◌-◌, Text, ◌=ₜ◌, is_empty, Bool, false, ◌&&◌, ◌||◌, [], ◌∷◌, ◌≡◌,
  refl, Option, none, some, if◌then◌else◌, leb, ◌==◌, arith, map, is_some,
}

abbrev pub is_space : ℕ → Bool
is_space c = c == 32 || leb 9 c && leb c 13

unfoldable pub trim_left : Text → Text
trim_left [] = []
trim_left (c ∷ s) = if is_space c then trim_left s else c ∷ s

abbrev kept : ℕ → Text → Text
kept c rest = if is_empty rest && is_space c then [] else c ∷ rest

unfoldable pub trim_right : Text → Text
trim_right [] = []
trim_right (c ∷ s) = kept c (trim_right s)

unfoldable pub trim_space : Text → Text
unfolding trim_left trim_right
trim_space s = trim_right (trim_left s)

-- strings.TrimRight by one byte
unfoldable pub trim_right_byte : ℕ → Text → Text
trim_right_byte b [] = []
trim_right_byte b (c ∷ s) =
    let rest = trim_right_byte b s in if is_empty rest && c == b then [] else c ∷ rest

-- What follows a prefix: HasPrefix with TrimPrefix.
unfoldable pub after_prefix : Text → Text → Option Text
after_prefix [] s = some s
after_prefix (p ∷ ps) [] = none
after_prefix (p ∷ ps) (c ∷ s) = if p == c then after_prefix ps s else none

-- strings.Contains
unfoldable pub contains : Text → Text → Bool
contains s [] = is_empty s
contains s (c ∷ t) = is_some (after_prefix s (c ∷ t)) || contains s t

unfoldable pub to_lower : Text → Text
to_lower = map (λ c. if leb b'A' c && leb c b'Z' then c + 32 else c)

unfoldable pub to_upper : Text → Text
to_upper = map (λ c. if leb b'a' c && leb c b'z' then c - 32 else c)

unfoldable pub equal_fold : Text → Text → Bool
unfolding to_lower
equal_fold s t = to_lower s =ₜ to_lower t

abbrev pub NoSpaces : Text → Type 0
NoSpaces [] = Unit
NoSpaces (c ∷ s) = (is_space c ≡ false) × NoSpaces s

trim_right-NoSpaces : (s : Text) → NoSpaces s → trim_right s ≡ s
unfolding trim_right
trim_right-NoSpaces [] h = refl
trim_right-NoSpaces (c ∷ s) h = ground (arith, trim_right-NoSpaces s h.1)

pub trim_space-NoSpaces : (s : Text) → NoSpaces s → trim_space s ≡ s
unfolding trim_space
trim_space-NoSpaces [] h = refl
trim_space-NoSpaces (c ∷ s) h = ground (arith, trim_right-NoSpaces s h.1)

-- No space at the front.
abbrev Led : Text → Type 0
Led [] = Unit
Led (c ∷ s) = is_space c ≡ false

trim_left-Led : (s : Text) → Led (trim_left s)
unfolding trim_left
trim_left-Led [] = tt
trim_left-Led (c ∷ s) = elim (Bool-cases (is_space c)) [
  | inl e ↦ rw e (trim_left-Led s)
  | inr e ↦ rw e e
]

trim_left-of_Led : (s : Text) → Led s → trim_left s ≡ s
unfolding trim_left
trim_left-of_Led [] h = refl
trim_left-of_Led (c ∷ s) h = rw h refl

kept-Led : (c : ℕ) (rest : Text) → is_space c ≡ false → Led (kept c rest)
kept-Led c [] h = rw h h
kept-Led c (d ∷ rest) h = h

trim_right-Led : (s : Text) → Led s → Led (trim_right s)
unfolding trim_right
trim_right-Led [] h = tt
trim_right-Led (c ∷ s) h = kept-Led c (trim_right s) h

trim_right_idem : (s : Text) → trim_right (trim_right s) ≡ trim_right s
unfolding trim_right
trim_right_idem [] = refl
trim_right_idem (c ∷ s) = ground (arith, trim_right_idem s)

-- Trimming twice is trimming once.
pub trim_space_idem : (s : Text) → trim_space (trim_space s) ≡ trim_space s
unfolding trim_space
trim_space_idem s =
    let led = trim_right-Led (trim_left s) (trim_left-Led s) in
    rw (trim_left-of_Led (trim_right (trim_left s)) led) (trim_right_idem (trim_left s))
