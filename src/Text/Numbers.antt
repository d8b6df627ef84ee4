-- ===== src/Text/Numbers.antt =====
-- Go's `strconv.ParseInt(s, 10, 64)` and `strconv.Atoi`, and the signed integers they return. A
-- failed call still returns a value, which several callers use.
use spottr.Base.{
  ℕ, suc, ◌+◌, ◌-◌, ◌*◌, ◌/◌, ◌%◌, ◌^◌, Bool, true, false, ◌&&◌, not, [], ◌∷◌, ltb, leb, ◌==◌,
  if◌then◌else◌, zero,
}
use spottr.Text.{Bytes}

-- `negsuc n` is -(n + 1).
pub data ℤ : Type 0 where
  pos : ℕ → ℤ
  negsuc : ℕ → ℤ

abbrev pub neg : ℕ → ℤ
neg zero = pos 0
neg (suc n) = negsuc n

abbrev pub is_zero : ℤ → Bool
is_zero (pos n) = n == 0
is_zero (negsuc n) = false

abbrev pub is_digit : ℕ → Bool
is_digit c = leb b'0' c && leb c b'9'

abbrev max_u64 : ℕ
max_u64 = 2 ^ 64 - 1

pub data Scanned : Type 0 where
  digits : ℕ → Scanned
  not_a_number too_big : Scanned

-- The first byte that is no digit, or the first overflow, ends the scan.
unfoldable pub scan_uint : Bytes → ℕ → Scanned
scan_uint [] n = digits n
scan_uint (c ∷ s) n =
    let m = n * 10 + (c - b'0') in
    let rest = scan_uint s m in
    if not (is_digit c) then not_a_number else if ltb max_u64 m then too_big else rest

pub record Parsed : Type 0 where
  pub value : ℤ
  pub good : Bool

abbrev signed : Bool → Scanned → Parsed
signed negative not_a_number = record { value = pos 0; good = false }
signed false too_big = record { value = pos (2 ^ 63 - 1); good = false }
signed true too_big = record { value = neg (2 ^ 63); good = false }
signed false (digits n) =
    if leb (2 ^ 63) n
    then record { value = pos (2 ^ 63 - 1); good = false }
    else record { value = pos n; good = true }
signed true (digits n) =
    if ltb (2 ^ 63) n
    then record { value = neg (2 ^ 63); good = false }
    else record { value = neg n; good = true }

scan_digits : Bool → Bytes → Parsed
unfolding scan_uint
scan_digits negative [] = record { value = pos 0; good = false }
scan_digits negative (c ∷ s) = signed negative (scan_uint (c ∷ s) 0)

unfoldable pub parse_int : Bytes → Parsed
unfolding scan_digits
parse_int [] = record { value = pos 0; good = false }
parse_int (c ∷ s) =
    if c == b'+'
    then scan_digits false s
    else if c == b'-'
    then scan_digits true s
    else scan_digits false (c ∷ s)

-- The decimal digits of a number, as `%d` prints them; `fuel` bounds their count.
unfoldable pub digits_from : ℕ → ℕ → Bytes → Bytes
digits_from zero n out = out
digits_from (suc fuel) n out =
    let rest = digits_from fuel (n / 10) ((b'0' + n % 10) ∷ out) in
    if ltb n 10 then (b'0' + n) ∷ out else rest

-- Twenty digits hold every 64-bit number.
unfoldable pub format_uint : ℕ → Bytes
unfolding digits_from
format_uint n = digits_from 20 n []
