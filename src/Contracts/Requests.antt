-- ===== src/Contracts/Requests.antt =====
-- The requests of a contract in the history of its transactions: the selectors of `ParseMultisigInput`,
-- and what its updates set.
use multy_back.Prelude.{
  ℕ, Bool, true, false, not, ◌&&◌, Option, none, some, List, [], ◌∷◌, ◌==◌, if◌then◌else◌, Str,
  str_eq, i64_gt, ◌+◌,
}
use multy_back.Store.Schemas.{
  User, Multisig, MultisigTx, OwnerHistory, TransactionEth, tx_in_block_method_invocation_fail,
  owner_confirmed, owner_revoked,
}
use multy_back.Store.Collection.{Collection}
use multy_back.Calldata.{submit_transaction}
use multy_back.Contracts.Internal.{Draft, Vault}

-- The selector `txhash`, a field that no document of Ethereum has: it is `hash` there.
abbrev pub has_txhash : Str → TransactionEth → Bool
has_txhash hash d = false

unfoldable pub has_hash : Str → TransactionEth → Bool
has_hash hash d = str_eq d.hash hash

unfoldable pub is_internal_of : Str → TransactionEth → Bool
unfolding has_hash
is_internal_of hash d = has_hash hash d && d.is_internal

-- `multisig.requestid`, `multisig.contract`, and the method.
unfoldable pub part_is_request : ℕ → Str → Option MultisigTx → Bool
part_is_request id contract none = false
part_is_request id contract (some m) = m.request_id == id && str_eq m.contract contract

unfoldable pub part_is_submit : Option MultisigTx → Bool
part_is_submit none = false
part_is_submit (some m) = str_eq m.method_invoked submit_transaction

unfoldable pub is_request : ℕ → Str → TransactionEth → Bool
unfolding part_is_request
is_request id contract d = part_is_request id contract d.multisig

unfoldable pub is_submit_of : ℕ → Str → TransactionEth → Bool
unfolding part_is_request part_is_submit
is_submit_of id contract d = is_request id contract d && part_is_submit d.multisig

-- An owner's confirmation by a transaction.
abbrev pub confirmed_by : TransactionEth → ℕ → OwnerHistory
confirmed_by tx now = record {
  address = tx.sender;
  confirmation_tx = tx.hash;
  confirmation_status = owner_confirmed;
  confirmation_time = now;
  seen_time = now;
}

-- The loop over the owners, of whom the sender is confirmed.
unfoldable pub confirm_owners : TransactionEth → ℕ → List OwnerHistory → List OwnerHistory
confirm_owners tx now [] = []
confirm_owners tx now (o ∷ os) =
    (if str_eq o.address tx.sender then confirmed_by tx now else o) ∷ confirm_owners tx now os

unfoldable pub count_confirmed : List OwnerHistory → ℕ
count_confirmed [] = 0
count_confirmed (o ∷ os) =
    (if o.confirmation_status == owner_confirmed then 1 else 0) + count_confirmed os

-- The number of confirmations is reached, and the transaction is in a block.
unfoldable pub is_reached : Multisig → List OwnerHistory → TransactionEth → Bool
unfolding count_confirmed
is_reached contract owners tx =
    not (i64_gt contract.confirmations (count_confirmed owners)) && not (tx.block_time == 0)

-- The loop of a revocation adds an entry before that of the sender.
unfoldable pub revoke_owners : Str → TransactionEth → ℕ → List OwnerHistory → List OwnerHistory
revoke_owners origin tx now [] = []
revoke_owners origin tx now (o ∷ os) =
    let rest = revoke_owners origin tx now os in
    if str_eq o.address origin
    then record {
      address = tx.sender;
      confirmation_tx = [];
      confirmation_status = owner_revoked;
      confirmation_time = now;
      seen_time = now;
    }
      ∷ o
      ∷ rest
    else o ∷ rest

abbrev pub on_part : (MultisigTx → MultisigTx) → Option MultisigTx → Option MultisigTx
on_part f none = none
on_part f (some m) = some (f m)

unfoldable pub set_owners : List OwnerHistory → TransactionEth → TransactionEth
set_owners os d = record d { multisig = on_part (λ m. record m { owners = os }) d.multisig }

unfoldable pub set_confirmed : List OwnerHistory → TransactionEth → TransactionEth
set_confirmed os d = record d {
  multisig = on_part (λ m. record m { owners = os; confirmed = true }) d.multisig;
}

unfoldable pub set_failed : TransactionEth → TransactionEth
set_failed d = record d { status = tx_in_block_method_invocation_fail }

unfoldable pub update_part : MultisigTx → Option MultisigTx → Option MultisigTx
update_part new = on_part (λ m. record m {
  request_id = new.request_id;
  return_value = new.return_value;
  invocation_status = new.invocation_status;
  confirmed = new.confirmed;
})

-- The update of `processMultisig`.
unfoldable pub renew_multisig : Draft → TransactionEth → TransactionEth
unfolding update_part
renew_multisig n d = record d {
  sender = n.tx.sender;
  receiver = n.tx.receiver;
  status = n.tx.status;
  block_height = n.tx.block_height;
  block_time = n.tx.block_time;
  amount = n.tx.amount;
  multisig = update_part n.ms d.multisig;
}

module _ (c : Collection User) (t : Collection TransactionEth) where
  -- The transaction as it goes on, the collections, and the users who are told.
  abbrev pub Reading : Type 0
  Reading = Option (Draft × Vault c t × List Str)

  -- A call that has failed in its block is marked so.
  unfoldable pub mark_failed : Draft → Vault c t → Draft × Vault c t
  unfolding set_failed
  mark_failed d v =
      if not (d.tx.block_time == 0) && not d.ms.invocation_status
      then (
        record d { tx = record d.tx { status = tx_in_block_method_invocation_fail } },
        record v { txs = (t.update_all (has_txhash d.tx.hash) set_failed v.txs).1 },
      )
      else (d, v)

  abbrev pub told : List Str → Draft × Vault c t → Reading
  told users r = some (r.0, r.1, users)
