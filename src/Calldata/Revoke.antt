-- ===== src/Calldata/Revoke.antt =====
-- The request ids of confirmations and revocations, and the notification of a method.
use multy_back.Prelude.{
  ℕ, ◌+◌, ◌^◌, ◌<◌, ◌≡◌, ◌≢◌, refl, [], ◌∷◌, ◌++◌, append-nil, subst, codes, arith, length, Str,
  none, ltb, ge→ltb, false, str_eq,
}
use multy_back.Calldata.Defs.{
  confirm_transaction, revoke_confirmation, submit_transaction, notify_confirm_tx, notify_revoke_tx,
  notify_payment_req, notify_incoming_tx, fetch_method, signature_to_status, set_string_16,
  digits_16, scan_hex, hex_digit, int64, blocks, blocks_from, bad_input, parsed, parse_revoke_input,
  confirm_request_id,
}
use multy_back.Calldata.Blocks.{blocks-append}
use multy_back.Calldata.Submit.{hex_word-IsLine}
use multy_back.Calldata.Numbers.{hex_word, length-hex_word, set_string_16-hex_word}

-- The request id of a confirmation is read back, for every id that fits an int64.
pub confirm_request_id-encode :
    (id : ℕ) → id < 2 ^ 63 → confirm_request_id (confirm_transaction ++ hex_word 64 id) ≡ parsed id
unfolding confirm_request_id int64
confirm_request_id-encode id h =
    let long : ltb (10 + length (hex_word 64 id)) 10 ≡ false = ge→ltb _ 10 (omega arith) in
    ground (arith, length-hex_word 64 id, set_string_16-hex_word 63 id)

not_hex : (s : Str) → set_string_16 (b'0' ∷ b'x' ∷ s) ≡ none
unfolding set_string_16 digits_16 scan_hex hex_digit
not_hex s = refl

word_blocks : (id : ℕ) → blocks (hex_word 64 id) ≡ hex_word 64 id ∷ []
unfolding blocks blocks_from
word_blocks id =
    subst (λ s. blocks s ≡ hex_word 64 id ∷ blocks []) (append-nil (hex_word 64 id))
      (blocks-append (hex_word 64 id) [] (hex_word-IsLine 64 id) (length-hex_word 64 id))

-- No input that begins with 0x, as all method inputs do, is ever read as a revocation: the number
-- is read from the whole input, and x is no digit. So the revocation of any request id, as a contract
-- is sent it, is answered as a bad input.
pub parse_revoke_input_fails :
    (s : Str) (id : ℕ)
    → (parse_revoke_input (b'0' ∷ b'x' ∷ s) ≢ parsed id)
      × (parse_revoke_input (revoke_confirmation ++ hex_word 64 id) ≡ bad_input)
unfolding parse_revoke_input
parse_revoke_input_fails s id = (
  λ e. ground (arith, not_hex s),
  (let long : ltb (10 + length (hex_word 64 id)) 10 ≡ false = ge→ltb _ 10 (omega arith) in
      ground (
        arith,
        length-hex_word 64 id,
        word_blocks id,
        not_hex (codes "20ea8d86" ++ hex_word 64 id),
      )),
)

-- What the notification says depends on the method alone: each of the three contract methods has
-- its own kind, whatever follows the name, and an input that is too short for a name is an incoming
-- transfer.
pub notify_of_method :
    (rest short : Str)
    → length short < 10
    → (signature_to_status (fetch_method (submit_transaction ++ rest)) ≡ notify_payment_req)
      × (signature_to_status (fetch_method (confirm_transaction ++ rest)) ≡ notify_confirm_tx)
      × (signature_to_status (fetch_method (revoke_confirmation ++ rest)) ≡ notify_revoke_tx)
      × (signature_to_status (fetch_method short) ≡ notify_incoming_tx)
unfolding fetch_method signature_to_status str_eq
notify_of_method rest short h = (ground arith, ground arith, ground arith, ground arith)
