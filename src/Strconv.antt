-- ===== src/Strconv.antt =====
-- Go's strconv and `%d`, as far as the program uses them: decimal texts of int64.
pub mod RoundTrip
use nexo_im.Base.{
  int64_cutoff, ◌≤◌, ◌<◌, ℕ, zero, suc, ◌+◌, ◌-◌, ◌*◌, ◌/◌, ◌%◌, ◌^◌, ℤ, pos, negsuc, pos_part,
  neg_part, Text, Bool, true, false, ◌||◌, [], ◌∷◌, if◌then◌else◌, ltb, ◌==◌,
}

abbrev pub max_uint64 : ℕ
max_uint64 = 2 ^ 64 - 1

-- The decimal digits of `n` before `out`. The fuel `n + 1` is enough.
unfoldable pub digits : ℕ → ℕ → Text → Text
digits zero n out = out
digits (suc f) n out =
    let more = digits f (n / 10) ((b'0' + n % 10) ∷ out) in
    if ltb n 10 then (b'0' + n) ∷ out else more

unfoldable pub format_nat : ℕ → Text
format_nat n = digits (n + 1) n []

-- `%d` of an int64
unfoldable pub format_int : ℤ → Text
format_int (pos n) = format_nat n
format_int (negsuc n) = b'-' ∷ format_nat (suc n)

pub data NumError : Type 0 where
  valid syntax out_of_range : NumError

-- The loop of ParseUint: a wrong character ends it, and so does a value above uint64.
unfoldable pub scan : Text → ℕ → ℕ × NumError
scan [] n = (n, valid)
scan (c ∷ s) n =
    if ltb c b'0' || ltb b'9' c
    then (0, syntax)
    else if ltb max_uint64 (n * 10 + (c - b'0'))
    then (max_uint64, out_of_range)
    else scan s (n * 10 + (c - b'0'))

unfoldable pub parse_uint : Text → ℕ × NumError
unfolding scan
parse_uint [] = (0, syntax)
parse_uint (c ∷ s) = scan (c ∷ s) 0

abbrev positive : ℕ × NumError → ℤ × Bool
positive (n, syntax) = (pos 0, false)
positive (n, _) = if ltb n int64_cutoff then (pos n, true) else (pos (int64_cutoff - 1), false)

abbrev negative : ℕ × NumError → ℤ × Bool
negative (n, syntax) = (pos 0, false)
negative (n, _) =
    if ltb int64_cutoff n
    then (negsuc (int64_cutoff - 1), false)
    else (if n == 0 then pos 0 else negsuc (n - 1), true)

-- ParseInt(s, 10, 64): the value, which callers use also where there is an error, and whether there
-- is none.
unfoldable pub parse_int : Text → ℤ × Bool
unfolding parse_uint
parse_int [] = (pos 0, false)
parse_int (c ∷ s) =
    if c == b'-'
    then negative (parse_uint s)
    else if c == b'+'
    then positive (parse_uint s)
    else positive (parse_uint (c ∷ s))
