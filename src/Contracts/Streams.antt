-- ===== src/Contracts/Streams.antt =====
-- The handler of eth/handlers.go for new transactions, with `generatedTxDataToStore`. A panic ends the
-- program: `none`.
use multy_back.Prelude.{
  ℕ, Bool, false, Option, none, some, List, [], ◌∷◌, ◌==◌, if◌then◌else◌, Str, ◌>>=◌,
}
use multy_back.Currencies.{eth_main, eth_test}
use multy_back.Store.Schemas.{User, TransactionEth}
use multy_back.Store.Collection.{Collection}
use multy_back.Store.Transactions.{TxState}
use multy_back.Calldata.{signature_to_status}
use multy_back.Ether.Save.{Notice, save_transaction, send_notify_to_clients}
use multy_back.Ether.Dates.{update_wallet_and_address_date}
use multy_back.Contracts.Owners.{has_contract}
use multy_back.Contracts.Internal.{Draft, document}
use multy_back.Contracts.Process.{Processed, process_multisig}

-- `ETHTransaction` of the node.
pub record NodeTxEth : Type 0 where
  pub user_id : Str
  pub wallet_index : ℕ
  pub address_index : ℕ
  pub hash : Str
  pub sender : Str
  pub receiver : Str
  pub amount : Str
  pub gas_price : ℕ
  pub gas_limit : ℕ
  pub nonce : ℕ
  pub status : ℕ
  pub block_time : ℕ
  pub pool_time : ℕ
  pub block_height : ℕ
  pub contract : Str
  pub method_invoked : Str
  pub invocation_status : Bool
  pub return_value : Str
  pub input : Str
  pub resync : Bool
  pub is_multisig : Bool

unfoldable pub generated_eth_tx : NodeTxEth → Draft
generated_eth_tx g = record {
  tx = record {
    user_id = g.user_id;
    wallet_index = g.wallet_index;
    address_index = g.address_index;
    hash = g.hash;
    sender = g.sender;
    receiver = g.receiver;
    amount = g.amount;
    gas_price = g.gas_price;
    gas_limit = g.gas_limit;
    nonce = g.nonce;
    status = g.status;
    block_time = g.block_time;
    pool_time = g.pool_time;
    block_height = g.block_height;
    confirmations = 0;
    is_internal = false;
    multisig = none;
  };
  ms = record {
    contract = g.contract;
    method_invoked = g.method_invoked;
    input = g.input;
    invocation_status = g.invocation_status;
    request_id = 0;
    return_value = g.return_value;
    owners = [];
    confirmed = false;
  };
}

-- What a user is told of a contract's transaction.
pub record ContractNotice : Type 0 where
  pub to : Str
  pub kind : ℕ

unfoldable pub contract_notices : ℕ → List User → List ContractNotice
contract_notices kind [] = []
contract_notices kind (u ∷ us) = record { to = u.user_id; kind = kind } ∷ contract_notices kind us

module _ (c : Collection User) (t : Collection TransactionEth) where
  -- The collections of both networks.
  pub record EthBooks : Type 0 where
    pub users : c.State
    pub txs : TxState t
    pub multisig_txs : TxState t

  -- What the handler sends: notices of the transaction, the users who are told of a submission, and
  -- the tx_notices to the owners of the contract.
  pub record Sendings : Type 0 where
    pub tx_notices : List Notice
    pub submission_told : List Str
    pub owners : List ContractNotice

  -- The users of the contract are told in any case, what has been read of them before an error.
  unfoldable pub tell_owners : Str → Str → EthBooks → List ContractNotice
  unfolding contract_notices
  tell_owners method contract b =
      contract_notices (signature_to_status method) (c.find_all (has_contract contract) b.users).0

  unfoldable pub process_main : ℕ → Draft → EthBooks → Option (Processed c t × EthBooks)
  process_main now d b =
      (process_multisig c t eth_main now d
        (record { users = b.users; multisig_txs = b.multisig_txs.main_txs; txs = b.txs.main_txs }))
      >>= λ r. some (
        r,
        record b {
          txs = record b.txs { main_txs = r.vault.txs };
          multisig_txs = record b.multisig_txs { main_txs = r.vault.multisig_txs };
        },
      )

  unfoldable pub process_test : ℕ → Draft → EthBooks → Option (Processed c t × EthBooks)
  process_test now d b =
      (process_multisig c t eth_test now d
        (record { users = b.users; multisig_txs = b.multisig_txs.test_txs; txs = b.txs.test_txs }))
      >>= λ r. some (
        r,
        record b {
          txs = record b.txs { test_txs = r.vault.txs };
          multisig_txs = record b.multisig_txs { test_txs = r.vault.multisig_txs };
        },
      )

  abbrev pub told_of :
      List Notice → Option (Processed c t × EthBooks) → Option (Sendings × EthBooks)
  told_of ns none = none
  told_of ns (some (r, b)) = some (
    record {
      tx_notices = ns;
      submission_told = r.told_users;
      owners = tell_owners r.method r.draft.ms.contract b;
    },
    b,
  )

  unfoldable pub process_new : ℕ → ℕ → Draft → List Notice → EthBooks → Option (Sendings × EthBooks)
  unfolding process_main process_test tell_owners
  process_new network now d ns b =
      if network == eth_main
      then told_of ns (process_main now d b)
      else if network == eth_test
      then told_of ns (process_test now d b)
      else some (
        record { tx_notices = ns; submission_told = []; owners = tell_owners [] d.ms.contract b },
        b,
      )

  unfoldable pub new_eth_tx : NodeTxEth → ℕ → ℕ → EthBooks → Option (Sendings × EthBooks)
  unfolding generated_eth_tx process_new
  new_eth_tx g network now b =
      let d = generated_eth_tx g in
      let saved = (save_transaction t (document d) network b.txs).1 in
      let dated = (update_wallet_and_address_date c (document d) network now b.users).1 in
      let b' = record b { users = dated; txs = saved } in
      (if g.resync then some [] else send_notify_to_clients (document d) (some d.ms) network [])
      >>= λ ns.
          (if g.is_multisig
            then process_new network now d ns b'
            else some (record { tx_notices = ns; submission_told = []; owners = [] }, b'))
