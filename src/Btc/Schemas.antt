-- ===== src/Btc/Schemas.antt =====
-- The documents of store/schemas.go for Bitcoin, and the messages of the node, with the fields that
-- the program reads. The exchange rates are left out: nothing here reads them.
use multy_back.Prelude.{ℕ, Bool, List, Str, [], ◌-◌, ◌^◌}

-- `AddressForWallet`
pub record AddressForWallet : Type 0 where
  pub address_index : ℕ
  pub address_out_index : ℕ
  pub address : Str
  pub amount : ℕ

-- `WalletForTx`
pub record WalletForTx : Type 0 where
  pub user_id : Str
  pub wallet_index : ℕ
  pub address : AddressForWallet

-- `AddresAmount`
pub record AddressAmount : Type 0 where
  pub address : Str
  pub amount : ℕ

-- `MultyTX`
pub record MultyTx : Type 0 where
  pub user_id : Str
  pub tx_id : Str
  pub tx_hash : Str
  pub tx_out_script : Str
  pub tx_address : List Str
  pub tx_status : ℕ
  pub tx_out_amount : ℕ
  pub block_time : ℕ
  pub block_height : ℕ
  pub confirmations : ℕ
  pub tx_fee : ℕ
  pub mempool_time : ℕ
  pub tx_inputs : List AddressAmount
  pub tx_outputs : List AddressAmount
  pub wallets_input : List WalletForTx
  pub wallets_output : List WalletForTx

-- `SpendableOutputs`
pub record SpendableOutput : Type 0 where
  pub tx_id : Str
  pub tx_out_id : ℕ
  pub tx_out_amount : ℕ
  pub tx_out_script : Str
  pub address : Str
  pub user_id : Str
  pub wallet_index : ℕ
  pub address_index : ℕ
  pub tx_status : ℕ

-- The part of a node's transaction that names a wallet.
pub record NodeWallet : Type 0 where
  pub user_id : Str
  pub address : Str
  pub amount : ℕ
  pub tx_out_index : ℕ

-- `BTCTransaction` of the node.
pub record NodeTx : Type 0 where
  pub user_id : Str
  pub tx_id : Str
  pub tx_hash : Str
  pub tx_out_script : Str
  pub tx_address : List Str
  pub tx_status : ℕ
  pub tx_out_amount : ℕ
  pub block_time : ℕ
  pub block_height : ℕ
  pub confirmations : ℕ
  pub tx_fee : ℕ
  pub mempool_time : ℕ
  pub tx_inputs : List AddressAmount
  pub tx_outputs : List AddressAmount
  pub wallets_input : List NodeWallet
  pub wallets_output : List NodeWallet
  pub resync : Bool

-- `AddSpOut` of the node.
pub record NodeOutput : Type 0 where
  pub user_id : Str
  pub tx_id : Str
  pub tx_out_id : ℕ
  pub tx_out_amount : ℕ
  pub tx_out_script : Str
  pub address : Str
  pub tx_status : ℕ
  pub wallet_index : ℕ
  pub address_index : ℕ

-- `ReqDeleteSpOut` of the node, which is also what the collection of spent outputs holds.
pub record SpentOutput : Type 0 where
  pub user_id : Str
  pub tx_id : Str
  pub address : Str

-- -1 as an int64, the height of a transaction in no block.
abbrev pub no_height : ℕ
no_height = 2 ^ 64 - 1

abbrev pub empty_tx : MultyTx
empty_tx = record {
  user_id = [];
  tx_id = [];
  tx_hash = [];
  tx_out_script = [];
  tx_address = [];
  tx_status = 0;
  tx_out_amount = 0;
  block_time = 0;
  block_height = 0;
  confirmations = 0;
  tx_fee = 0;
  mempool_time = 0;
  tx_inputs = [];
  tx_outputs = [];
  wallets_input = [];
  wallets_output = [];
}
