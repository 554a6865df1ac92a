-- ===== src/Calldata/Defs.antt =====
-- The parsers. A text is ASCII; a panic (a slice out of range) is a value of its own.
use multy_back.Prelude.{
  ℕ, zero, suc, ◌+◌, ◌-◌, ◌*◌, ◌/◌, ◌%◌, ◌^◌, Bool, true, false, ◌&&◌, Option, none, some, List, [],
  ◌∷◌, ◌++◌, ltb, leb, ◌==◌, if◌then◌else◌, length, take, drop, Str, codes, str_eq, to_lower, ℤ,
  pos, negsuc, ◌>>=◌,
}

abbrev pub submit_transaction : Str
submit_transaction = codes "0xc6427474"

abbrev pub confirm_transaction : Str
confirm_transaction = codes "0xc01a8c84"

abbrev pub revoke_confirmation : Str
revoke_confirmation = codes "0x20ea8d86"

abbrev pub execute_transaction : Str
execute_transaction = codes "0xee22610b"

unfoldable pub fetch_method : Str → Str
fetch_method input = if ltb (length input) 10 then codes "0x" else take 10 input

abbrev pub notify_payment_req : ℕ
notify_payment_req = 9

abbrev pub notify_incoming_tx : ℕ
notify_incoming_tx = 10

abbrev pub notify_confirm_tx : ℕ
notify_confirm_tx = 11

abbrev pub notify_revoke_tx : ℕ
notify_revoke_tx = 12

-- `signatuteToStatus`
unfoldable pub signature_to_status : Str → ℕ
signature_to_status signature =
    if str_eq signature submit_transaction
    then notify_payment_req
    else if str_eq signature confirm_transaction
    then notify_confirm_tx
    else if str_eq signature revoke_confirmation
    then notify_revoke_tx
    else if str_eq signature (codes "0x")
    then notify_incoming_tx
    else notify_payment_req

-- `regexp.MustCompile(".{64}").FindAllString(s, -1)`: the matches from the left, none of which
-- holds a line feed. `cur` is the match under way.
abbrev pub line_feed : ℕ
line_feed = 10

unfoldable pub next_match : Str → ℕ → Str
next_match cur c = if c == line_feed then [] else if length cur == 63 then [] else cur ++ c ∷ []

unfoldable pub full_match : Str → ℕ → List Str
full_match cur c =
    if c == line_feed then [] else if length cur == 63 then (cur ++ c ∷ []) ∷ [] else []

unfoldable pub blocks_from : Str → Str → List Str
unfolding next_match full_match
blocks_from cur [] = []
blocks_from cur (c ∷ s) = full_match cur c ++ blocks_from (next_match cur c) s

unfoldable pub blocks : Str → List Str
unfolding blocks_from
blocks s = blocks_from [] s

-- `new(big.Int).SetString(s, 16)`: a sign, and one or more digits of either case.
unfoldable pub hex_digit : ℕ → Option ℕ
hex_digit c =
    if leb b'0' c && leb c b'9'
    then some (c - b'0')
    else if leb b'a' c && leb c b'f'
    then some (c - b'a' + 10)
    else if leb b'A' c && leb c b'F'
    then some (c - b'A' + 10)
    else none

unfoldable pub scan_hex : ℕ → Str → Option ℕ
scan_hex acc [] = some acc
scan_hex acc (c ∷ s) = do d ← hex_digit c; scan_hex (acc * 16 + d) s

unfoldable pub digits_16 : Str → Option ℕ
unfolding scan_hex hex_digit
digits_16 [] = none
digits_16 (c ∷ s) = scan_hex 0 (c ∷ s)

abbrev negate : ℕ → ℤ
negate zero = pos 0
negate (suc n) = negsuc n

unfoldable pub set_string_16 : Str → Option ℤ
set_string_16 [] = none
set_string_16 (c ∷ s) =
    if c == b'-'
    then (do n ← digits_16 s; some (negate n))
    else if c == b'+'
    then (do n ← digits_16 s; some (pos n))
    else (do n ← digits_16 (c ∷ s); some (pos n))

-- `(*big.Int).String`, in decimal. The fuel bounds the number of digits.
unfoldable pub emit : ℕ → ℕ → Str → Str
emit zero n out = out
emit (suc fuel) n out =
    let rest = emit fuel (n / 10) ((b'0' + n % 10) ∷ out) in
    if ltb n 10 then (b'0' + n) ∷ out else rest

unfoldable pub decimal : ℕ → Str
unfolding emit
decimal n = emit (suc n) n []

unfoldable pub int_string : Option ℤ → Str
int_string none = codes "<nil>"
int_string (some (pos n)) = decimal n
int_string (some (negsuc n)) = b'-' ∷ decimal (suc n)

-- `(*big.Int).Int64`: the low 64 bits, as a two's complement pattern.
unfoldable pub int64 : ℤ → ℕ
int64 (pos n) = n % 2 ^ 64
int64 (negsuc n) = (2 ^ 64 - suc n % 2 ^ 64) % 2 ^ 64

-- `address, amount` from the first two blocks, where there are four.
unfoldable pub submit_parts : List Str → Str × Str
submit_parts (p ∷ q ∷ r ∷ t ∷ more) =
    (to_lower (codes "0x" ++ drop 24 p), int_string (set_string_16 q))
submit_parts _ = ([], [])

unfoldable pub parse_submit_input : Str → Str × Str
parse_submit_input input =
    if leb 266 (length input) then submit_parts (blocks (drop 10 input)) else ([], [])

pub data Parsed : Type 0 where
  parsed : ℕ → Parsed
  bad_input low_len : Parsed
  panic : Parsed

abbrev is_empty : List Str → Bool
is_empty [] = true
is_empty (_ ∷ _) = false

abbrev parsed_or : Option ℤ → Parsed
parsed_or none = bad_input
parsed_or (some i) = parsed (int64 i)

-- The blocks are those of `input[10:]`, and the number is read from the whole of `input`.
unfoldable pub parse_revoke_input : Str → Parsed
parse_revoke_input input =
    if ltb (length input) 10
    then panic
    else if is_empty (blocks (drop 10 input))
    then low_len
    else parsed_or (set_string_16 input)

-- The request id of a confirmation, `SetString(tx.Multisig.Input[10:], 16)` and `Int64()`, which
-- panics on the nil of an unreadable number.
unfoldable pub confirm_request_id : Str → Parsed
confirm_request_id input =
    if ltb (length input) 10
    then panic
    else elim (set_string_16 (drop 10 input)) [ none ↦ panic | some i ↦ parsed (int64 i) ]
