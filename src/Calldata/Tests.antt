-- ===== src/Calldata/Tests.antt =====
-- The calldata theorems on concrete inputs.
use multy_back.Prelude.{
  ◌≡◌, ◌≢◌, refl, [], ◌∷◌, ◌++◌, arith, replicate, Str, codes, to_lower, All, ◌∷◌,
}
use multy_back.Calldata.{
  confirm_transaction, parse_submit_input, decimal, confirm_request_id, parse_revoke_input,
  revoke_confirmation, bad_input, parsed,
}
use multy_back.Calldata.Numbers.{hex_word, decimal_value, IsDigit}
use multy_back.Calldata.Submit.{encode_submit, parse_submit_input-encode_submit}
use multy_back.Calldata.Revoke.{confirm_request_id-encode, parse_revoke_input_fails}

abbrev some_address : Str
some_address = replicate 40 b'A'

abbrev zero_word : Str
zero_word = replicate 64 b'0'

parse_submit_input-encode_submit_example :
    (parse_submit_input (encode_submit some_address 1000 zero_word zero_word [])
      ≡ (codes "0x" ++ to_lower some_address, decimal 1000))
    × (decimal_value 0 (decimal 1000) ≡ 1000)
    × All IsDigit (decimal 1000)
parse_submit_input-encode_submit_example =
    parse_submit_input-encode_submit some_address 1000 zero_word zero_word [] refl (omega arith)
      (omega arith) refl (omega arith) refl (omega arith)

confirm_request_id-encode_example :
    confirm_request_id (confirm_transaction ++ hex_word 64 12) ≡ parsed 12
confirm_request_id-encode_example = confirm_request_id-encode 12 (omega arith)

parse_revoke_input_fails_example :
    (parse_revoke_input (b'0' ∷ b'x' ∷ codes "20ea8d8600") ≢ parsed 5)
    × (parse_revoke_input (revoke_confirmation ++ hex_word 64 5) ≡ bad_input)
parse_revoke_input_fails_example = parse_revoke_input_fails (codes "20ea8d8600") 5
