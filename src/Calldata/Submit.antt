-- ===== src/Calldata/Submit.antt =====
-- `parseSubmitInput` against the ABI encoding of `submitTransaction(address,uint256,bytes)`.
use multy_back.Prelude.{
  ℕ, ◌^◌, ◌≤◌, ◌<◌, ◌≡◌, ◌≢◌, refl, ap, ◌∙◌, List, ◌∷◌, ◌++◌, arith, length, length-append, drop,
  replicate, Str, codes, to_lower, All, All-append, All-imp,
}
use multy_back.Calldata.Defs.{
  submit_transaction, blocks, submit_parts, parse_submit_input, int_string, decimal,
}
use multy_back.Calldata.Numbers.{
  hex_word, length-hex_word, hex_word-All, set_string_16-hex_word, decimal_value,
  decimal_value-decimal, IsHexChar, IsDigit, decimal-All,
}
use multy_back.Calldata.Blocks.{IsLine, blocks-append}

-- The call's first two arguments as 32-byte words, in lower-case hexadecimal: an address is padded
-- on the left by 24 zeros.
unfoldable pub address_word : Str → Str
address_word address = replicate 24 b'0' ++ address

pub length-address_word : (address : Str) → length address ≡ 40 → length (address_word address) ≡ 64
unfolding address_word
length-address_word address h = omega (arith, length-append (replicate 24 b'0') address)

address_word-IsLine : (address : Str) → IsLine address → IsLine (address_word address)
unfolding address_word
address_word-IsLine address h = All-append (λ c. c ≢ 10) (replicate 24 b'0') address (omega arith) h

drop-address_word : (address : Str) → drop 24 (address_word address) ≡ address
unfolding address_word
drop-address_word address = refl

pub hex_word-IsLine : (n v : ℕ) → IsLine (hex_word n v)
hex_word-IsLine n v =
    All-imp {Q = λ c. c ≢ 10} (λ c (h : IsHexChar c). omega arith) (hex_word n v) (hex_word-All n v)

-- The input of `submitTransaction`: the signature, the two words, and the two or more words of the
-- byte string.
unfoldable pub encode_submit : Str → ℕ → Str → Str → Str → Str
encode_submit address value w₃ w₄ more =
    submit_transaction ++ (address_word address ++ (hex_word 64 value ++ (w₃ ++ (w₄ ++ more))))

blocks-words :
    (a v w₃ w₄ more : Str)
    → length a ≡ 64
    → IsLine a
    → length v ≡ 64
    → IsLine v
    → length w₃ ≡ 64
    → IsLine w₃
    → length w₄ ≡ 64
    → IsLine w₄
    → blocks (a ++ (v ++ (w₃ ++ (w₄ ++ more)))) ≡ a ∷ v ∷ w₃ ∷ w₄ ∷ blocks more
blocks-words a v w₃ w₄ more la na lv nv l3 n3 l4 n4 = rw (
  blocks-append a _ na la,
  blocks-append v _ nv lv,
  blocks-append w₃ _ n3 l3,
  blocks-append w₄ _ n4 l4,
)

length-words :
    (a v w₃ w₄ more : Str)
    → length a ≡ 64
    → length v ≡ 64
    → length w₃ ≡ 64
    → length w₄ ≡ 64
    → 256 ≤ length (a ++ (v ++ (w₃ ++ (w₄ ++ more))))
length-words a v w₃ w₄ more la lv l3 l4 = omega (
  arith,
  length-append a (v ++ (w₃ ++ (w₄ ++ more))),
  length-append v (w₃ ++ (w₄ ++ more)),
  length-append w₃ (w₄ ++ more),
  length-append w₄ more,
)

parse_submit_input-words :
    (words : Str)
    → 256 ≤ length words
    → parse_submit_input (submit_transaction ++ words) ≡ submit_parts (blocks words)
unfolding parse_submit_input
parse_submit_input-words words h = ground arith

submit_parts-words :
    (address : Str) (value : ℕ) (w₃ w₄ : Str) (more : List Str)
    → value < 2 ^ 256
    → submit_parts (address_word address ∷ hex_word 64 value ∷ w₃ ∷ w₄ ∷ more)
      ≡ (codes "0x" ++ to_lower address, decimal value)
unfolding submit_parts int_string to_lower decimal
submit_parts-words address value w₃ w₄ more h =
    rw (set_string_16-hex_word 63 value h, drop-address_word address)

-- The input of a `submitTransaction` call is decoded to the address it names, in lower case and
-- behind 0x, and to its amount in decimal: the amount has digits only, and they stand for it. This
-- holds for every address of 40 characters on one line, every 256-bit amount, and every byte string
-- of two or more words on one line.
pub parse_submit_input-encode_submit :
    (address : Str) (value : ℕ) (w₃ w₄ more : Str)
    → length address ≡ 40
    → IsLine address
    → value < 2 ^ 256
    → length w₃ ≡ 64
    → IsLine w₃
    → length w₄ ≡ 64
    → IsLine w₄
    → (parse_submit_input (encode_submit address value w₃ w₄ more)
        ≡ (codes "0x" ++ to_lower address, decimal value))
      × (decimal_value 0 (decimal value) ≡ value)
      × All IsDigit (decimal value)
unfolding encode_submit
parse_submit_input-encode_submit address value w₃ w₄ more la na lv l3 n3 l4 n4 =
    let a = address_word address in
    let v = hex_word 64 value in
    let la' : length a ≡ 64 = length-address_word address la in
    let lv' : length v ≡ 64 = length-hex_word 64 value in
    let split =
      blocks-words a v w₃ w₄ more la' (address_word-IsLine address na) lv'
        (hex_word-IsLine 64 value) l3 n3 l4 n4 in
    (
      parse_submit_input-words _ (length-words a v w₃ w₄ more la' lv' l3 l4)
          ∙ ap submit_parts split
          ∙ submit_parts-words address value w₃ w₄ (blocks more) lv,
      decimal_value-decimal value,
      decimal-All value,
    )
