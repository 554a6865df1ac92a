-- ===== src/Calldata/Numbers.antt =====
-- Numbers in hexadecimal and in decimal: what is printed is read back.
use native.Mathlib.Nat.{pow-suc}
use multy_back.Prelude.{
  ℕ, zero, suc, ◌+◌, ◌-◌, ◌*◌, ◌/◌, ◌%◌, ◌^◌, ◌≤◌, ◌<◌, ◌≡◌, refl, ap, ◌∙◌, some, Option-cases, [],
  ◌∷◌, ◌++◌, arith, ltb, length, length-append, Str, All, All-append, Bool-cases, inl, inr,
  if◌then◌else◌, pos, ◌>>=◌,
}
use multy_back.Calldata.Defs.{hex_digit, scan_hex, digits_16, set_string_16, emit, decimal}

-- A 256-bit word of an ABI encoding: `n` lower-case digits.
abbrev pub hex_char : ℕ → ℕ
hex_char d = if ltb d 10 then b'0' + d else b'a' + (d - 10)

unfoldable pub hex_word : ℕ → ℕ → Str
hex_word zero v = []
hex_word (suc n) v = hex_word n (v / 16) ++ hex_char (v % 16) ∷ []

pub length-hex_word : (n v : ℕ) → length (hex_word n v) ≡ n
unfolding hex_word
length-hex_word zero v = refl
length-hex_word (suc n) v = omega (
  arith,
  length-append (hex_word n (v / 16)) (hex_char (v % 16) ∷ []),
  length-hex_word n (v / 16),
)

abbrev pub IsHexChar : ℕ → Type 0
IsHexChar c = (b'0' ≤ c) × (c ≤ b'f')

pub hex_word-All : (n v : ℕ) → All IsHexChar (hex_word n v)
unfolding hex_word
hex_word-All zero v = tt
hex_word-All (suc n) v =
    All-append IsHexChar (hex_word n (v / 16)) _ (hex_word-All n (v / 16)) (ground arith)

hex_digit-hex_char : (d : ℕ) → d < 16 → hex_digit (hex_char d) ≡ some d
unfolding hex_digit
hex_digit-hex_char d h = ground arith

scan_hex-append :
    (acc : ℕ) (s t : Str) → scan_hex acc (s ++ t) ≡ (scan_hex acc s >>= λ n. scan_hex n t)
unfolding scan_hex
scan_hex-append acc [] t = refl
scan_hex-append acc (c ∷ s) t = elim (Option-cases (hex_digit c)) [
  | inl e ↦ rw e
  | inr (d, e) ↦ rw e (scan_hex-append (acc * 16 + d) s t)
]

scan_hex-hex_word :
    (n acc v : ℕ) → v < 16 ^ n → scan_hex acc (hex_word n v) ≡ some (acc * 16 ^ n + v)
unfolding scan_hex hex_word
scan_hex-hex_word zero acc v h = ap some (omega arith)
scan_hex-hex_word (suc n) acc v h =
    let grow : 16 ^ suc n ≡ 16 ^ n * 16 = pow-suc 16 n in
    rw
      (
        scan_hex-append acc (hex_word n (v / 16)),
        scan_hex-hex_word n acc (v / 16) (omega (arith, grow)),
      )
      (rw (hex_digit-hex_char (v % 16) (omega arith))
        (ap some (omega (arith, ap (λ (t : ℕ). acc * t) grow))))

digits_16-scan_hex : (s : Str) → 0 < length s → digits_16 s ≡ scan_hex 0 s
unfolding digits_16
digits_16-scan_hex [] h = absurd (omega arith)
digits_16-scan_hex (c ∷ s) h = refl

set_string_16-scan_hex :
    (s : Str)
    → 0 < length s
    → All IsHexChar s
    → set_string_16 s ≡ (scan_hex 0 s >>= λ n. some (pos n))
unfolding set_string_16
set_string_16-scan_hex [] h a = absurd (omega arith)
set_string_16-scan_hex (c ∷ s) h (p, a) = unfold digits_16 in (ground arith)

-- A 256-bit word is read back.
pub set_string_16-hex_word :
    (n v : ℕ) → v < 16 ^ suc n → set_string_16 (hex_word (suc n) v) ≡ some (pos v)
set_string_16-hex_word n v h =
    rw
      (
        set_string_16-scan_hex (hex_word (suc n) v) (omega (arith, length-hex_word (suc n) v))
            (hex_word-All (suc n) v),
        scan_hex-hex_word (suc n) 0 v h,
      )
      (ap (λ k. some (pos k)) (omega arith))

-- What a text of decimal digits stands for.
abbrev pub decimal_value : ℕ → Str → ℕ
decimal_value acc [] = acc
decimal_value acc (c ∷ s) = decimal_value (acc * 10 + (c - b'0')) s

decimal_value-emit :
    (fuel n : ℕ) (out : Str) → n < fuel → decimal_value 0 (emit fuel n out) ≡ decimal_value n out
unfolding emit
decimal_value-emit zero n out h = absurd (omega arith)
decimal_value-emit (suc fuel) n out h = elim (Bool-cases (ltb n 10)) [
  | inl last ↦ rw last (ap (λ (k : ℕ). decimal_value k out) (omega arith))
  | inr more ↦ rw more (
      decimal_value-emit fuel (n / 10) ((b'0' + n % 10) ∷ out) (ground arith)
      ∙ ap (λ (k : ℕ). decimal_value k out) (omega arith))
]

-- The decimal print of a number stands for that number.
pub decimal_value-decimal : (n : ℕ) → decimal_value 0 (decimal n) ≡ n
unfolding decimal
decimal_value-decimal n = decimal_value-emit (suc n) n [] (omega arith)

abbrev pub IsDigit : ℕ → Type 0
IsDigit c = (b'0' ≤ c) × (c ≤ b'9')

emit-All : (fuel n : ℕ) (out : Str) → All IsDigit out → All IsDigit (emit fuel n out)
unfolding emit
emit-All zero n out h = h
emit-All (suc fuel) n out h = ground (arith, emit-All fuel (n / 10) ((b'0' + n % 10) ∷ out))

pub decimal-All : (n : ℕ) → All IsDigit (decimal n)
unfolding decimal
decimal-All n = emit-All (suc n) n [] tt
