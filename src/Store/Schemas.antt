-- ===== src/Store/Schemas.antt =====
-- The documents of store/schemas.go. A text is a list of character codes; an integer is its 64-bit
-- pattern.
mod Constants
use multy_back.Prelude.{ℕ, Bool, false, Option, List, [], Str, codes}
unfoldable pub use Constants.*

pub record Device : Type 0 where
  pub device_id : Str
  pub push_token : Str
  pub jwt : Str
  pub last_action_time : ℕ
  pub last_action_ip : Str
  pub app_version : Str
  pub device_type : ℕ

pub record Address : Type 0 where
  pub address_index : ℕ
  pub address : Str
  pub last_action_time : ℕ

pub record Wallet : Type 0 where
  pub currency_id : ℕ
  pub network_id : ℕ
  pub wallet_index : ℕ
  pub wallet_name : Str
  pub last_action_time : ℕ
  pub date_of_creation : ℕ
  pub addresses : List Address
  pub status : Str
  pub is_imported : Bool
  pub broken_status : ℕ

pub record AddressExtended : Type 0 where
  pub user_id : Str
  pub address : Str
  pub associated : Bool
  pub creator : Bool
  pub wallet_index : ℕ
  pub address_index : ℕ

pub record Multisig : Type 0 where
  pub currency_id : ℕ
  pub network_id : ℕ
  pub confirmations : ℕ
  pub wallet_name : Str
  pub factory_address : Str
  pub contract_address : Str
  pub tx_of_creation : Str
  pub last_action_time : ℕ
  pub date_of_creation : ℕ
  pub owners : List AddressExtended
  pub deploy_status : ℕ
  pub status : Str
  pub invite_code : Str
  pub owners_count : ℕ
  pub imported : Bool

pub record User : Type 0 where
  pub user_id : Str
  pub seed_phrase_type : ℕ
  pub devices : List Device
  pub wallets : List Wallet
  pub multisigs : List Multisig

pub record InviteCodeInfo : Type 0 where
  pub currency_id : ℕ
  pub network_id : ℕ
  pub exists_code : Bool

pub record OwnerHistory : Type 0 where
  pub address : Str
  pub confirmation_tx : Str
  pub confirmation_status : ℕ
  pub confirmation_time : ℕ
  pub seen_time : ℕ

pub record MultisigTx : Type 0 where
  pub contract : Str
  pub method_invoked : Str
  pub input : Str
  pub invocation_status : Bool
  pub request_id : ℕ
  pub return_value : Str
  pub owners : List OwnerHistory
  pub confirmed : Bool

-- The exchange rates and the ERC20 part of a transaction are left out: nothing here reads them.
pub record TransactionEth : Type 0 where
  pub user_id : Str
  pub wallet_index : ℕ
  pub address_index : ℕ
  pub hash : Str
  pub sender : Str
  pub receiver : Str
  pub amount : Str
  pub gas_price : ℕ
  pub gas_limit : ℕ
  pub nonce : ℕ
  pub status : ℕ
  pub block_time : ℕ
  pub pool_time : ℕ
  pub block_height : ℕ
  pub confirmations : ℕ
  pub is_internal : Bool
  pub multisig : Option MultisigTx

-- Go's zero value.
abbrev pub empty_multisig : Multisig
empty_multisig = record {
  currency_id = 0;
  network_id = 0;
  confirmations = 0;
  wallet_name = [];
  factory_address = [];
  contract_address = [];
  tx_of_creation = [];
  last_action_time = 0;
  date_of_creation = 0;
  owners = [];
  deploy_status = 0;
  status = [];
  invite_code = [];
  owners_count = 0;
  imported = false;
}

abbrev pub no_info : InviteCodeInfo
no_info = record { currency_id = 0; network_id = 0; exists_code = false }
