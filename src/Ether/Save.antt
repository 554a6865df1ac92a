-- ===== src/Ether/Save.antt =====
-- `saveTransaction` and `sendNotifyToClients`.
use multy_back.Prelude.{
  ℕ, Bool, ◌&&◌, ◌||◌, Option, none, some, List, [], ◌∷◌, ◌++◌, ◌==◌, if◌then◌else◌, Str, str_eq,
  codes,
}
use multy_back.Currencies.{ether, eth_main, eth_test}
use multy_back.Store.Schemas.{
  TransactionEth, MultisigTx, tx_appeared_in_mempool_incoming, tx_appeared_in_block_incoming,
  tx_in_block_confirmed_incoming, tx_appeared_in_mempool_outcoming, tx_appeared_in_block_outcoming,
  tx_in_block_confirmed_outcoming,
}
use multy_back.Store.Collection.{Answer, ok, not_found, failed, Collection}
use multy_back.Store.Transactions.{TxState}

unfoldable pub is_incoming : ℕ → Bool
is_incoming status =
    status == tx_appeared_in_block_incoming
    || status == tx_appeared_in_mempool_incoming
    || status == tx_in_block_confirmed_incoming

unfoldable pub is_outgoing : ℕ → Bool
is_outgoing status =
    status == tx_appeared_in_block_outcoming
    || status == tx_appeared_in_mempool_outcoming
    || status == tx_in_block_confirmed_outcoming

-- The selector `userid`, `hash`, `walletindex`.
unfoldable pub same_key : TransactionEth → TransactionEth → Bool
same_key tx d =
    str_eq d.user_id tx.user_id && str_eq d.hash tx.hash && d.wallet_index == tx.wallet_index

unfoldable pub refresh : TransactionEth → TransactionEth → TransactionEth
refresh tx d = record d {
  status = tx.status;
  block_height = tx.block_height;
  block_time = tx.block_time;
  gas_price = tx.gas_price;
  gas_limit = tx.gas_limit;
}

module _ (t : Collection TransactionEth) where
  unfoldable pub save_read :
      TransactionEth → Answer TransactionEth → t.State → Answer (Unit {0}) × t.State
  save_read tx (ok d) s = t.update (same_key tx) (refresh tx) s
  save_read tx not_found s = t.insert tx s
  save_read tx (failed why) s = (failed why, s)

  unfoldable pub save_in : TransactionEth → t.State → Answer (Unit {0}) × t.State
  save_in tx s =
      if is_incoming tx.status
      then save_read tx (t.find_one (same_key tx) s) s
      else if is_outgoing tx.status
      then save_read tx (t.find_one (same_key tx) s) s
      else (ok tt, s)

  unfoldable pub save_transaction : TransactionEth → ℕ → TxState t → Answer (Unit {0}) × TxState t
  save_transaction tx network s =
      if network == eth_main
      then (let r = save_in tx s.main_txs in (r.0, record s { main_txs = r.1 }))
      else if network == eth_test
      then (let r = save_in tx s.test_txs in (r.0, record s { test_txs = r.1 }))
      else (failed (codes "saveMultyTransaction: wrong networkID"), s)

-- `WsTxNotify` with the user it is for.
pub record Notice : Type 0 where
  pub user_id : Str
  pub currency_id : ℕ
  pub network_id : ℕ
  pub address : Str
  pub amount : Str
  pub tx_id : Str
  pub transaction_type : ℕ
  pub wallet_index : ℕ
  pub sender : Str
  pub receiver : Str
  pub multisig : Str

unfoldable pub notice : TransactionEth → MultisigTx → ℕ → Str → Str → Notice
notice tx m network user a = record {
  user_id = user;
  currency_id = ether;
  network_id = network;
  address = a;
  amount = tx.amount;
  tx_id = tx.hash;
  transaction_type = tx.status;
  wallet_index = tx.wallet_index;
  sender = tx.sender;
  receiver = tx.receiver;
  multisig = m.contract;
}

-- The optional user of the call, or the transaction's.
abbrev pub addressee : Str → List Str → Str
addressee user [] = user
addressee user (u ∷ us) = u

unfoldable pub notices : TransactionEth → MultisigTx → ℕ → List Str → List Notice
notices tx m network users =
    (if is_incoming tx.status
      then notice tx m network (addressee tx.user_id users) tx.receiver ∷ []
      else [])
    ++ (if is_outgoing tx.status then notice tx m network tx.user_id tx.sender ∷ [] else [])

-- `none`: a transaction of no known kind is passed over, and one without its multisig part is a nil
-- pointer.
unfoldable pub send_notify_to_clients :
    TransactionEth → Option MultisigTx → ℕ → List Str → Option (List Notice)
send_notify_to_clients tx (some m) network users = some (notices tx m network users)
send_notify_to_clients tx none network users =
    if is_incoming tx.status || is_outgoing tx.status then none else some []
