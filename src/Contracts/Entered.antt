-- ===== src/Contracts/Entered.antt =====
-- A submission that is reported before it is in a block.
use multy_back.Prelude.{
  ℕ, ◌≡◌, refl, ap, ◌∙◌, some, List, [], ◌++◌, ◌<◌, ◌^◌, ◌==◌, arith, length, Str, codes, to_lower,
  str_eq, str_eq_iff, ==_iff, true, map,
}
use multy_back.Currencies.{ether}
use multy_back.Store.Schemas.{User, Multisig, TransactionEth}
use multy_back.Store.Collection.{Collection}
use multy_back.Calldata.{submit_transaction, fetch_method, parse_submit_input, decimal}
use multy_back.Calldata.Blocks.{IsLine}
use multy_back.Calldata.Numbers.{hex_word}
use multy_back.Calldata.Submit.{address_word, encode_submit, parse_submit_input-encode_submit}
use multy_back.Contracts.Owners.{fetch_contract_owners, find_contract_owners, fetch_multisig}
use multy_back.Contracts.Internal.{Draft, Vault}
use multy_back.Contracts.Requests.{confirm_owners}
use multy_back.Contracts.Submit.{finish_submit, parse_submit}
use multy_back.Contracts.Process.{dispatch_method, parse_multisig_input}

fetch_method-submit : (rest : Str) → fetch_method (submit_transaction ++ rest) ≡ submit_transaction
unfolding fetch_method
fetch_method-submit rest = ground arith

module _ (c : Collection User) (t : Collection TransactionEth) where
  dispatch_submit :
      (contract : Multisig) (users : List Str) (now : ℕ) (d : Draft) (v : Vault c t)
      → d.ms.method_invoked ≡ submit_transaction
      → d.tx.block_time ≡ 0
      → dispatch_method c t contract users now d v ≡ finish_submit c t now [] d v
  unfolding dispatch_method parse_submit
  dispatch_submit contract users now d v method in_pool =
      let submits : str_eq d.ms.method_invoked submit_transaction ≡ true =
        (str_eq_iff d.ms.method_invoked submit_transaction).1 method in
      let pooled : (d.tx.block_time == 0) ≡ true = (==_iff d.tx.block_time 0).1 in_pool in
      rw submits (rw pooled refl)

  -- The transaction of the contract that a submission stands for.
  abbrev pub Entered : ℕ → ℕ → Str → ℕ → Draft → Vault c t → Draft → Type 0
  Entered network now address value d v r =
      (r.tx.sender ≡ d.tx.receiver)
      × (r.tx.receiver ≡ codes "0x" ++ to_lower address)
      × (r.tx.amount ≡ decimal value)
      × (r.ms.method_invoked ≡ submit_transaction)
      × (r.ms.owners
          ≡ confirm_owners d.tx now (fetch_contract_owners c ether network d.ms.contract v.users))

  -- A submission that is reported before it is in a block becomes a transaction from the contract to
  -- the address that it encodes, in lower case and behind 0x, of the amount that it encodes, in
  -- decimal, which its sender has confirmed among the owners of the contract; nothing is written and
  -- nobody told by then. It is so for every address of 40 characters on one line, every 256-bit
  -- amount, and every byte string of two or more words whose first two are on one line each.
  pub parse_multisig_input-Entered :
      (network now : ℕ) (address : Str) (value : ℕ) (w₃ w₄ more : Str) (d : Draft) (v : Vault c t)
      → length address ≡ 40
      → IsLine address
      → value < 2 ^ 256
      → length w₃ ≡ 64
      → IsLine w₃
      → length w₄ ≡ 64
      → IsLine w₄
      → d.ms.input ≡ encode_submit address value w₃ w₄ more
      → d.tx.block_time ≡ 0
      → (r : Draft) × (parse_multisig_input c t network now d v ≡ some (r, v, []))
        × Entered network now address value d v r
  unfolding parse_multisig_input finish_submit
  parse_multisig_input-Entered network now address value w₃ w₄ more d v la na lv l3 n3 l4 n4 e
        in_pool =
      (r, parsed_to, (refl, ap (λ q. q.0) decoded, ap (λ q. q.1) decoded, method, refl))
    where
      decoded : parse_submit_input d.ms.input ≡ (codes "0x" ++ to_lower address, decimal value)
      decoded =
          ap parse_submit_input e
          ∙ (parse_submit_input-encode_submit address value w₃ w₄ more la na lv l3 n3 l4 n4).0

      method : fetch_method d.ms.input ≡ submit_transaction
      method =
          ap fetch_method e
          ∙ (unfold encode_submit in
              fetch_method-submit
                (address_word address ++ (hex_word 64 value ++ (w₃ ++ (w₄ ++ more)))))

      d' : Draft
      d' = record d {
        ms = record d.ms {
          owners = fetch_contract_owners c ether network d.ms.contract v.users;
          method_invoked = fetch_method d.ms.input;
        };
      }

      r : Draft
      r = record {
        tx = record d.tx {
          sender = d.tx.receiver;
          receiver = (parse_submit_input d.ms.input).0;
          amount = (parse_submit_input d.ms.input).1;
        };
        ms = record d'.ms { owners = confirm_owners d.tx now d'.ms.owners };
      }

      parsed_to : parse_multisig_input c t network now d v ≡ some (r, v, [])
      parsed_to =
          dispatch_submit
            (fetch_multisig (find_contract_owners c d.tx.receiver v.users) d.tx.receiver)
            (map (λ (u : User). u.user_id) (find_contract_owners c d.tx.receiver v.users)) now d' v
            method in_pool
