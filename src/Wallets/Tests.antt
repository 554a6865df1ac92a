-- ===== src/Wallets/Tests.antt =====
-- The theorems on wallets, on a user with one wallet.
use multy_back.Prelude.{ℕ, ◌≡◌, refl, true, false, some, [], ◌∷◌, any, codes, str_eq}
use multy_back.Store.Schemas.{Device, Address, Wallet, User, wallet_ok}
use multy_back.Store.Collection.{Collection, ok}
use multy_back.Store.Memory.{memory, found}
use multy_back.Wallets.Params.{WalletParams, Clock, has_jwt, is_wallet}
use multy_back.Wallets.Create.{create_custom_wallet}
use multy_back.Wallets.Update.{ChangeName, add_address_to_wallet}
use multy_back.Wallets.Delete.{Balances, DeleteRequest, delete_in, fetch_undeleted_wallets}
use multy_back.Wallets.Distinct.{AllDistinct, create_custom_wallet-AllDistinct}
use multy_back.Wallets.Indexes.{AllIndexed, add_address_to_wallet-AllIndexed}
use multy_back.Wallets.Positions.{drop_first, delete_in_hides}

abbrev users : Collection User
users = memory User

abbrev address : Address
address = record { address_index = 0; address = codes "1abc"; last_action_time = 0 }

abbrev wallet : Wallet
wallet = record {
  currency_id = 0;
  network_id = 0;
  wallet_index = 3;
  wallet_name = codes "savings";
  last_action_time = 0;
  date_of_creation = 0;
  addresses = address ∷ [];
  status = wallet_ok;
  is_imported = false;
  broken_status = 0;
}

abbrev phone : Device
phone = record {
  device_id = codes "phone";
  push_token = [];
  jwt = codes "token";
  last_action_time = 0;
  last_action_ip = [];
  app_version = [];
  device_type = 1;
}

abbrev user : User
user = record {
  user_id = codes "carol";
  seed_phrase_type = 0;
  devices = phone ∷ [];
  wallets = wallet ∷ [];
  multisigs = [];
}

abbrev clock : Clock
clock = record { seconds = 1500; nanoseconds = 1500000 }

abbrev params : WalletParams
params = record {
  currency_id = 60;
  network_id = 1;
  address = codes "0xAB";
  address_index = 0;
  wallet_index = 0;
  wallet_name = codes "coffee";
  is_imported = false;
  multisig = record {
    is_multisig = false;
    signatures_required = 0;
    owners_count = 0;
    invite_code = [];
    is_imported = false;
    contract_address = [];
  };
}

abbrev balances : ℕ → Balances
balances n = record {
  spendable = λ a. n;
  main_balance = λ a. some (codes "7");
  test_balance = λ a. some (codes "7");
}

abbrev request : ℕ → ℕ → DeleteRequest
request currency network = record {
  wallet_index = 3;
  derivation_path = [];
  asset_type = 0;
  currency_id = currency;
  network_id = network;
}

read : users.find_one (has_jwt (codes "token")) (user ∷ []) ≡ ok user
unfolding found has_jwt str_eq
read = refl

has_one : any (is_wallet 0 0 3) user.wallets ≡ true
unfolding is_wallet
has_one = refl

create_custom_wallet-AllDistinct_example :
    AllDistinct users
      (create_custom_wallet users params (codes "token") false clock (user ∷ [])).state
create_custom_wallet-AllDistinct_example =
    create_custom_wallet-AllDistinct users params (codes "token") false clock (user ∷ [])
      (((λ own. tt), tt), tt)

add_address_to_wallet-AllIndexed_example :
    AllIndexed users
      (add_address_to_wallet users (codes "1def") (codes "token") 0 0 3 1 clock (user ∷ [])).state
add_address_to_wallet-AllIndexed_example =
    add_address_to_wallet-AllIndexed users (codes "1def") (codes "token") 0 0 3 1 clock user
      (user ∷ []) read has_one (((tt, tt), tt), tt)

has_two : any (is_wallet 0 0 3) (wallet ∷ wallet ∷ []) ≡ true
unfolding is_wallet
has_two = refl

has_no_fourth : any (is_wallet 0 0 4) (wallet ∷ []) ≡ false
unfolding is_wallet
has_no_fourth = refl

delete_in_hides_example :
    fetch_undeleted_wallets (delete_in 0 0 3 (wallet ∷ wallet ∷ []) (wallet ∷ wallet ∷ []))
    ≡ fetch_undeleted_wallets (drop_first (is_wallet 0 0 3) (wallet ∷ wallet ∷ []))
delete_in_hides_example = delete_in_hides 0 0 3 (wallet ∷ wallet ∷ []) has_two

abbrev new_name : ChangeName
new_name = record {
  wallet_name = codes "rent";
  currency_id = 0;
  wallet_index = 3;
  network_id = 0;
  address = [];
  kind = 1;
}
