-- ===== src/Resync/Texts.antt =====
-- `strconv.Atoi`, whose result is used even where it is an error: 0 for what is no number, the nearest
-- number for one out of range.
use multy_back.Prelude.{
  ℕ, ◌+◌, ◌-◌, ◌*◌, ◌%◌, ◌^◌, Bool, true, false, ◌&&◌, [], ◌∷◌, leb, ltb, ◌==◌, if◌then◌else◌, Str,
  i64_mod,
}

-- The number and whether there was no error.
pub record AtoiResult : Type 0 where
  pub value : ℕ
  pub is_number : Bool

-- The reading of digits ends at the first that is none, or at the first by which the number has more
-- than 64 bits.
pub data Scan : Type 0 where
  number : ℕ → Scan
  no_number : Scan
  too_large : Scan

unfoldable pub digits_from : ℕ → Str → Scan
digits_from n [] = number n
digits_from n (c ∷ s) =
    let rest = digits_from (n * 10 + (c - b'0')) s in
    if leb b'0' c && leb c b'9'
    then (if ltb (n * 10 + (c - b'0')) i64_mod then rest else too_large)
    else no_number

unfoldable pub unsigned : Str → Scan
unfolding digits_from
unsigned [] = no_number
unsigned (c ∷ s) = digits_from 0 (c ∷ s)

unfoldable pub signed : Bool → Scan → AtoiResult
signed negative no_number = record { value = 0; is_number = false }
signed false too_large = record { value = 2 ^ 63 - 1; is_number = false }
signed true too_large = record { value = 2 ^ 63; is_number = false }
signed false (number n) =
    if ltb n (2 ^ 63)
    then record { value = n; is_number = true }
    else record { value = 2 ^ 63 - 1; is_number = false }
signed true (number n) =
    if leb n (2 ^ 63)
    then record { value = (i64_mod - n) % i64_mod; is_number = true }
    else record { value = 2 ^ 63; is_number = false }

unfoldable pub atoi : Str → AtoiResult
unfolding signed unsigned
atoi [] = signed false no_number
atoi (c ∷ s) =
    if c == b'-'
    then signed true (unsigned s)
    else if c == b'+'
    then signed false (unsigned s)
    else signed false (unsigned (c ∷ s))
