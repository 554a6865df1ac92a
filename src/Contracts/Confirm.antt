-- ===== src/Contracts/Confirm.antt =====
-- `confirmTransaction` in `ParseMultisigInput`.
use multy_back.Prelude.{ℕ, true, Option, none, some, List, [], if◌then◌else◌, Str}
use multy_back.Store.Schemas.{
  User, Multisig, MultisigTx, OwnerHistory, TransactionEth, tx_in_block_confirmed_incoming,
}
use multy_back.Store.Collection.{Answer, ok, not_found, failed, Collection}
use multy_back.Calldata.{
  submit_transaction, parse_submit_input, Parsed, parsed, bad_input, low_len, panic,
}
use multy_back.Contracts.Internal.{Draft, Vault, confirm_internal}
use multy_back.Contracts.Requests.{
  is_reached, has_hash, is_internal_of, is_submit_of, confirm_owners, set_owners, set_confirmed,
  Reading, mark_failed, told,
}

module _ (c : Collection User) (t : Collection TransactionEth) where
  -- The payment of a request that has been confirmed often enough, if none is found under its hash.
  unfoldable pub confirm_read :
      Multisig
      → TransactionEth
      → MultisigTx
      → ℕ
      → Answer TransactionEth
      → Draft
      → Vault c t
      → Draft × Vault c t
  unfolding confirm_internal
  confirm_read contract origin part now (ok found) d v = (d, v)
  confirm_read contract origin part now (failed why) d v = (d, v)
  confirm_read contract origin part now not_found d v =
      let parts = parse_submit_input part.input in
      confirm_internal c t
        (record {
          payer = contract;
          target = parts.0;
          amount = parts.1;
          status = tx_in_block_confirmed_incoming;
          now = now;
        })
        submit_transaction d v

  unfoldable pub execute :
      Multisig
      → List Str
      → TransactionEth
      → MultisigTx
      → List OwnerHistory
      → ℕ
      → Draft
      → Vault c t
      → Draft × Vault c t × List Str
  unfolding confirm_read set_confirmed is_internal_of has_hash
  execute contract users origin part owners now d v =
      let sure = record d { ms = record d.ms { confirmed = true } } in
      let v' = record v {
        multisig_txs =
            (t.update_all (has_hash origin.hash) (set_confirmed owners) v.multisig_txs).1;
      } in
      let r =
        confirm_read contract origin part now (t.find_one (is_internal_of origin.hash) v'.txs) sure
          v' in
      (r.0, r.1, users)

  abbrev pub after_mark : Draft × Vault c t × List Str → Reading c t
  after_mark r = told c t r.2 (mark_failed c t r.0 r.1)

  -- The submission that is confirmed has been found; without a multisig part it is a nil pointer.
  unfoldable pub confirm_found :
      Multisig
      → List Str
      → ℕ
      → ℕ
      → TransactionEth
      → Option MultisigTx
      → Draft
      → Vault c t
      → Reading c t
  unfolding confirm_owners is_submit_of set_owners is_reached execute mark_failed
  confirm_found contract users now id origin none d v = none
  confirm_found contract users now id origin (some part) d v =
      let owners = confirm_owners d.tx now part.owners in
      let v' = record v {
        multisig_txs =
            (t.update_all (is_submit_of id d.ms.contract) (set_owners owners) v.multisig_txs).1;
      } in
      let d' = record d { ms = record d.ms { owners = [] } } in
      after_mark (
        if is_reached contract owners d.tx
        then execute contract users origin part owners now d' v'
        else (d', v', []))

  unfoldable pub confirm_searched :
      Multisig → List Str → ℕ → ℕ → Answer TransactionEth → Draft → Vault c t → Reading c t
  unfolding confirm_found
  confirm_searched contract users now id (ok origin) d v =
      confirm_found contract users now id origin origin.multisig d v
  confirm_searched contract users now id not_found d v = some (d, v, [])
  confirm_searched contract users now id (failed why) d v = some (d, v, [])

  unfoldable pub confirm_parsed : Multisig → List Str → ℕ → Parsed → Draft → Vault c t → Reading c t
  unfolding confirm_searched is_submit_of
  confirm_parsed contract users now (parsed id) d v =
      confirm_searched contract users now id
        (t.find_one (is_submit_of id d.ms.contract) v.multisig_txs) d v
  confirm_parsed contract users now bad_input d v = none
  confirm_parsed contract users now low_len d v = none
  confirm_parsed contract users now panic d v = none
