-- ===== src/Idgen.antt =====
-- pkg/idgen/idgen.go. sonyflake and the clock are parameters: `now i` is what time.Now().UnixNano() is
-- at the i-th byte.
pub mod Form
use Prim.Native.Nat.{suc, bit_and, bit_or}
use nexo_im.Base.{
  ℕ, zero, suc, ◌+◌, ◌-◌, ◌/◌, ◌%◌, ltb, ◌==◌, Text, codes, Bool, true, false, Option, none, some,
  [], ◌∷◌, ◌++◌, if◌then◌else◌,
}
use nexo_im.Strconv.{format_nat}

-- The bytes that `randomRead` fills in.
unfoldable pub random_read : (ℕ → ℕ) → ℕ → ℕ
random_read now i = now i % 256

-- A digit of `%x`
unfoldable pub hex_digit : ℕ → ℕ
hex_digit n = if ltb n 10 then b'0' + n else b'a' + (n - 10)

unfoldable pub hex_byte : ℕ → Text
hex_byte b = hex_digit (b / 16) ∷ (hex_digit (b % 16) ∷ [])

-- The bytes with version and variant.
unfoldable pub uuid_bytes : (ℕ → ℕ) → ℕ → ℕ
uuid_bytes b i =
    if i == 6
    then bit_or (bit_and (b 6) 0x0f) 0x40
    else if i == 8
    then bit_or (bit_and (b 8) 0x3f) 0x80
    else b i

-- `%x` of the bytes from i on, n of them.
unfoldable pub hex_bytes : (ℕ → ℕ) → ℕ → ℕ → Text
hex_bytes b i zero = []
hex_bytes b i (suc n) = hex_byte (b i) ++ hex_bytes b (i + 1) n

unfoldable pub generate_uuid : (ℕ → ℕ) → Text
generate_uuid now =
    let b = uuid_bytes (random_read now) in
    hex_bytes b 0 4
    ++ (b'-'
        ∷ (hex_bytes b 4 2
            ++ (b'-'
                ∷ (hex_bytes b 6 2 ++ (b'-' ∷ (hex_bytes b 8 2 ++ (b'-' ∷ hex_bytes b 10 6)))))))

-- The two kinds of generator; the number of the machine is sonyflake's setting.
pub data Generator : Type 0 where
  sonyflake : ℕ → Generator
  uuid : Generator

-- `defaultGenerator`, `initErr`, and whether `once` has run.
pub record Default : Type 0 where
  pub generator : Option Generator
  pub init_failed : Bool
  pub done : Bool

unfoldable pub set_default_generator : Generator → Default → Default
set_default_generator g d = record d { generator = some g }

-- `created`: sonyflake accepts its settings.
abbrev initialised : Bool → Option Generator → Default → Default
initialised created (some g) d = record d { done = true }
initialised true none d = record d { done = true; generator = some (sonyflake 1) }
initialised false none d = record d { done = true; init_failed = true }

unfoldable pub get_default_generator : Bool → Default → Option Generator × Default
get_default_generator created d =
    let d' = if d.done then d else initialised created d.generator d in
    (if d'.init_failed then none else d'.generator, d')

-- `sonyflake_id` is what sonyflake answers, `none` for an error.
unfoldable pub next_id_of : Option ℕ → (ℕ → ℕ) → Option Generator → Option Text
next_id_of sonyflake_id now none = none
next_id_of none now (some (sonyflake m)) = none
next_id_of (some id) now (some (sonyflake m)) = some (format_nat id)
next_id_of sonyflake_id now (some uuid) = some (generate_uuid now)

unfoldable pub next_id : Bool → Option ℕ → (ℕ → ℕ) → Default → Option Text × Default
next_id created sonyflake_id now d =
    let got = get_default_generator created d in (next_id_of sonyflake_id now got.0, got.1)
