-- ===== src/Idgen/Form.antt =====
-- The form of the uuids of pkg/idgen/idgen.go.
use Prim.Native.Nat.{bit_and, bit_or}
use nexo_im.Base.{
  List, ap, codes, List, if◌then◌else◌, ℕ, zero, suc, ◌/◌, ◌%◌, ◌<◌, ◌==◌, length, drop, take, Text,
  Bool, true, ◌||◌, [], ◌∷◌, ◌≡◌, ◌⊎◌, refl, arith,
}
use nexo_im.Idgen.{random_read, hex_digit, hex_byte, hex_bytes, uuid_bytes, generate_uuid}

-- The bytes under n that fail a test.
failing : (ℕ → Bool) → ℕ → List ℕ
failing test zero = []
failing test (suc n) = let rest = failing test n in if test n then rest else n ∷ rest

none_failing : (test : ℕ → Bool) (byte n : ℕ) → byte < n → failing test n ≡ [] → test byte ≡ true
unfolding failing
none_failing test byte zero below passed = absurd (omega arith)
none_failing test byte (suc n) below passed = ground (arith, none_failing test byte n)

abbrev four : ℕ → Bool
four b = hex_digit (bit_or (bit_and b 0x0f) 0x40 / 16) == b'4'

abbrev eight_to_b : ℕ → Bool
eight_to_b b =
    let d = hex_digit (bit_or (bit_and b 0x3f) 0x80 / 16) in
    d == b'8' || (d == b'9' || (d == b'a' || d == b'b'))

fours : failing four 256 ≡ []
unfolding failing hex_digit
fours = refl

eights : failing eight_to_b 256 ≡ []
unfolding failing hex_digit
eights = refl

abbrev pub at : ℕ → Text → Text
at i t = take 1 (drop i t)

version_digit : (b : ℕ) → b < 256 → hex_digit (bit_or (bit_and b 0x0f) 0x40 / 16) ≡ b'4'
version_digit b h = ground (arith, none_failing four b 256 h fours)

variant_digit : (b : ℕ) → b < 256 → eight_to_b b ≡ true
variant_digit b h = none_failing eight_to_b b 256 h eights

-- Whatever the clock says, an id of the UUID generator has 36 characters, with dashes at 8, 13, 18 and
-- 23, the version digit 4 at 14, and one of 8, 9, a and b at 19.
pub generate_uuid-IsV4 :
    (now : ℕ → ℕ)
    → let t = generate_uuid now in
      (length t ≡ 36)
      × (at 8 t ≡ codes "-")
      × (at 13 t ≡ codes "-")
      × (at 18 t ≡ codes "-")
      × (at 23 t ≡ codes "-")
      × (at 14 t ≡ codes "4")
      × ((at 19 t ≡ codes "8")
          ⊎ (at 19 t ≡ codes "9")
          ⊎ (at 19 t ≡ codes "a")
          ⊎ (at 19 t ≡ codes "b"))
unfolding generate_uuid hex_bytes hex_byte uuid_bytes random_read
generate_uuid-IsV4 now = (
  refl,
  refl,
  refl,
  refl,
  refl,
  ap (λ (c : ℕ). c ∷ []) (version_digit (now 6 % 256) (omega arith)),
  ground (arith, variant_digit (now 8 % 256)),
)
