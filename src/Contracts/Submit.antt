-- ===== src/Contracts/Submit.antt =====
-- `submitTransaction` in `ParseMultisigInput`. A nil pointer that is followed is a panic: `none`.
use multy_back.Prelude.{
  ℕ, true, false, Option, none, some, List, [], ◌==◌, if◌then◌else◌, Str, ◌>>=◌,
}
use multy_back.Store.Schemas.{
  User, Multisig, MultisigTx, TransactionEth, tx_in_block_confirmed_outcoming,
}
use multy_back.Store.Collection.{Answer, ok, not_found, failed, Collection}
use multy_back.Calldata.{execute_transaction, parse_submit_input, set_string_16, int64}
use multy_back.Prelude.{ℤ}
use multy_back.Contracts.Internal.{Draft, Vault, submit_internal}
use multy_back.Contracts.Requests.{has_txhash, confirm_owners, Reading, mark_failed}

module _ (c : Collection User) (t : Collection TransactionEth) where
  -- The end of a submission: its sender has confirmed it, and it goes from the contract to the target.
  unfoldable pub finish_submit : ℕ → List Str → Draft → Vault c t → Reading c t
  unfolding confirm_owners
  finish_submit now users d v =
      let parts = parse_submit_input d.ms.input in
      some (
        record {
          tx = record d.tx { sender = d.tx.receiver; receiver = parts.0; amount = parts.1 };
          ms = record d.ms { owners = confirm_owners d.tx now d.ms.owners };
        },
        v,
        users,
      )

  -- The payment of a contract that wants one confirmation. A document with the field is never found,
  -- so that the payment is made on each report.
  abbrev pub submit_paid : Draft → Option (MultisigTx × Vault c t) → Option (Draft × Vault c t)
  submit_paid d none = none
  submit_paid d (some (ms, v)) = some (record d { ms = ms }, v)

  unfoldable pub submit_read :
      Multisig
      → Str
      → Str
      → ℕ
      → Answer TransactionEth
      → Draft
      → Vault c t
      → Option (Draft × Vault c t)
  unfolding submit_internal
  submit_read contract target amount now (ok found) d v = some (d, v)
  submit_read contract target amount now (failed why) d v = some (d, v)
  submit_read contract target amount now not_found d v = submit_paid d (
      submit_internal c t
        (record {
          payer = contract;
          target = target;
          amount = amount;
          status = tx_in_block_confirmed_outcoming;
          now = now;
        })
        execute_transaction d v)

  unfoldable pub submit_pay : Multisig → List Str → ℕ → Draft → Vault c t → Reading c t
  unfolding submit_read finish_submit
  submit_pay contract users now d v =
      let parts = parse_submit_input d.ms.input in
      let d' = record d { tx = record d.tx { amount = parts.1 } } in
      let sure = record d' { ms = record d.ms { confirmed = true } } in
      if contract.confirmations == 1
      then (submit_read contract parts.0 parts.1 now (t.find_one (has_txhash d.tx.hash) v.txs) sure
          v)
        >>= (λ r. finish_submit now users r.0 r.1)
      else finish_submit now [] d' v

  -- In a block the contract has returned the number of the request.
  unfoldable pub submit_returned :
      Multisig → List Str → ℕ → Option ℤ → Draft → Vault c t → Reading c t
  unfolding mark_failed submit_pay
  submit_returned contract users now none d v =
      some (record d { ms = record d.ms { invocation_status = false } }, v, [])
  submit_returned contract users now (some i) d v =
      let r = mark_failed c t d v in
      submit_pay contract users now (record r.0 { ms = record r.0.ms { request_id = int64 i } }) r.1

  unfoldable pub parse_submit : Multisig → List Str → ℕ → Draft → Vault c t → Reading c t
  unfolding submit_returned finish_submit
  parse_submit contract users now d v =
      if d.tx.block_time == 0
      then finish_submit now [] d v
      else submit_returned contract users now (set_string_16 d.ms.return_value) d v
