-- ===== src/Strconv/RoundTrip.antt =====
-- An int64 is read back from its decimal text, and what is read is an int64.
use nexo_im.Base.{
  IsInt64, int64_cutoff, ℕ, zero, suc, ◌+◌, ◌/◌, ◌%◌, ◌<◌, ◌≤◌, Text, ◌≡◌, ◌∷◌, [], arith, ℤ, pos,
  negsuc, true, refl,
}
use nexo_im.Base.{length}
use nexo_im.Strings.{NoSpaces}
use nexo_im.Strconv.{
  max_uint64, digits, scan, format_nat, format_int, parse_uint, parse_int, valid, positive,
}

scan-digits : (f n : ℕ) (out : Text) → n < f → n ≤ max_uint64 → scan (digits f n out) 0 ≡ scan out n
unfolding digits scan
scan-digits zero n out h fits = elim h [ ]
scan-digits (suc f) n out h fits = ground (arith, scan-digits f (n / 10) ((b'0' + n % 10) ∷ out))

-- The first byte of a number is a digit.
abbrev Starts : Text → Type 0
Starts [] = ⊥
Starts (c ∷ s) = (b'0' ≤ c) × (c ≤ b'9')

Starts-digits : (f n : ℕ) (out : Text) → n < f → Starts (digits f n out)
unfolding digits
Starts-digits zero n out h = elim h [ ]
Starts-digits (suc f) n out h = ground (arith, Starts-digits f (n / 10) ((b'0' + n % 10) ∷ out))

parse_uint-of_Starts : (s : Text) → Starts s → parse_uint s ≡ scan s 0
unfolding parse_uint
parse_uint-of_Starts [] h = elim h [ ]
parse_uint-of_Starts (c ∷ s) h = refl

parse_int-of_Starts : (s : Text) → Starts s → parse_int s ≡ positive (scan s 0)
unfolding parse_int parse_uint
parse_int-of_Starts [] h = elim h [ ]
parse_int-of_Starts (c ∷ s) h = ground arith

parse_uint-format_nat : (n : ℕ) → n ≤ max_uint64 → parse_uint (format_nat n) ≡ (n, valid)
unfolding format_nat scan
parse_uint-format_nat n h =
    let d = Starts-digits (n + 1) n [] (omega arith) in
    ground (arith, parse_uint-of_Starts (digits (n + 1) n []) d, scan-digits (n + 1) n [])

parse_int-format_nat : (n : ℕ) → n < int64_cutoff → parse_int (format_nat n) ≡ (pos n, true)
unfolding format_nat scan
parse_int-format_nat n h =
    let d = Starts-digits (n + 1) n [] (omega arith) in
    ground (arith, parse_int-of_Starts (digits (n + 1) n []) d, scan-digits (n + 1) n [])

pub parse_int-format_int : (n : ℤ) → IsInt64 n → parse_int (format_int n) ≡ (n, true)
unfolding format_int
parse_int-format_int (pos n) h = parse_int-format_nat n h.0
parse_int-format_int (negsuc n) h =
    unfold parse_int in ground (arith, parse_uint-format_nat (suc n))

-- What is read is an int64, whether or not the text is a number.
pub parse_int-IsInt64 : (s : Text) → IsInt64 (parse_int s).0
unfolding parse_int
parse_int-IsInt64 [] = omega arith
parse_int-IsInt64 (c ∷ s) = ground arith

length-of_Starts : (s : Text) → Starts s → 0 < length s
length-of_Starts [] h = elim h [ ]
length-of_Starts (c ∷ s) h = omega arith

pub length-format_int : (n : ℤ) → 0 < length (format_int n)
unfolding format_int format_nat
length-format_int (pos n) =
    length-of_Starts (format_nat n) (Starts-digits (n + 1) n [] (omega arith))
length-format_int (negsuc n) = omega arith

NoSpaces-digits : (f n : ℕ) (out : Text) → NoSpaces out → NoSpaces (digits f n out)
unfolding digits
NoSpaces-digits zero n out h = h
NoSpaces-digits (suc f) n out h = ground (arith, NoSpaces-digits f (n / 10) ((b'0' + n % 10) ∷ out))

pub NoSpaces-format_int : (n : ℤ) → NoSpaces (format_int n)
unfolding format_int format_nat
NoSpaces-format_int (pos n) = NoSpaces-digits (n + 1) n [] tt
NoSpaces-format_int (negsuc n) = (refl, NoSpaces-digits (suc n + 1) (suc n) [] tt)
