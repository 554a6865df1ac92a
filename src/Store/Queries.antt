-- ===== src/Store/Queries.antt =====
-- The queries of store/store.go over all users: `FindUserDataChain`, `FindUsersContractsChain`,
-- `GetUsersReceiverAddressesByUserIds`, `FetchUserAddresses` and `ConvertToBroken`. A Go map is a
-- list of entries with one for each key.
use multy_back.Prelude.{
  ℕ, Bool, true, false, ◌&&◌, List, [], ◌∷◌, ◌++◌, ◌==◌, any, if◌then◌else◌, Str, str_eq,
}
use multy_back.Store.Schemas.{Address, Wallet, User, Multisig, AddressExtended, wallet_ok}
use multy_back.Store.Collection.{Collection, modify}
use multy_back.Store.Multisigs.{is_user, has_address}

module _ {V : Type 0} where
  unfoldable pub put_entry : Str → V → List (Str × V) → List (Str × V)
  put_entry key v [] = (key, v) ∷ []
  put_entry key v ((k, w) ∷ entries) =
      let rest = put_entry key v entries in
      if str_eq k key then (key, v) ∷ entries else (k, w) ∷ rest

  unfoldable pub has_key : Str → List (Str × V) → Bool
  has_key key [] = false
  has_key key ((k, v) ∷ entries) = if str_eq k key then true else has_key key entries

unfoldable pub on_chain : ℕ → ℕ → Wallet → Bool
on_chain currency network w = w.currency_id == currency && w.network_id == network

abbrev pub Owners : Type 0
Owners = List (Str × AddressExtended)

-- The three loops of `FindUserDataChain`.
unfoldable pub data_addresses : Str → ℕ → List Address → Owners → Owners
data_addresses id index [] owners = owners
data_addresses id index (x ∷ xs) owners = data_addresses id index xs (
    put_entry x.address
      (record {
        user_id = id;
        address = [];
        associated = false;
        creator = false;
        wallet_index = index;
        address_index = x.address_index;
      })
      owners)

unfoldable pub data_wallets : ℕ → ℕ → Str → List Wallet → Owners → Owners
data_wallets currency network id [] owners = owners
data_wallets currency network id (w ∷ ws) owners = data_wallets currency network id ws (
    if on_chain currency network w
    then data_addresses id w.wallet_index w.addresses owners
    else owners)

unfoldable pub data_users : ℕ → ℕ → List User → Owners → Owners
data_users currency network [] owners = owners
data_users currency network (u ∷ us) owners =
    data_users currency network us (data_wallets currency network u.user_id u.wallets owners)

-- The loops of `FindUsersContractsChain`.
unfoldable pub contract_multisigs : ℕ → ℕ → List Multisig → List (Str × Str) → List (Str × Str)
contract_multisigs currency network [] contracts = contracts
contract_multisigs currency network (m ∷ ms) contracts = contract_multisigs currency network ms (
    if m.currency_id == currency && m.network_id == network
    then put_entry m.contract_address m.factory_address contracts
    else contracts)

unfoldable pub contract_users : ℕ → ℕ → List User → List (Str × Str) → List (Str × Str)
contract_users currency network [] contracts = contracts
contract_users currency network (u ∷ us) contracts =
    contract_users currency network us (contract_multisigs currency network u.multisigs contracts)

pub record SupportedAddress : Type 0 where
  pub currency_id : ℕ
  pub network_id : ℕ
  pub address : Str

pub record StartupReceiver : Type 0 where
  pub id : Str
  pub supported : List SupportedAddress

unfoldable pub supported_in : ℕ → ℕ → List Address → List SupportedAddress
supported_in currency network [] = []
supported_in currency network (x ∷ xs) =
    record { currency_id = currency; network_id = network; address = x.address }
    ∷ supported_in currency network xs

unfoldable pub supported_addresses : List Wallet → List SupportedAddress
supported_addresses [] = []
supported_addresses (w ∷ ws) =
    let rest = supported_addresses ws in
    if str_eq w.status wallet_ok
    then supported_in w.currency_id w.network_id w.addresses ++ rest
    else rest

unfoldable pub startup_receivers : List User → List StartupReceiver
startup_receivers [] = []
startup_receivers (u ∷ us) =
    record { id = u.user_id; supported = supported_addresses u.wallets } ∷ startup_receivers us

abbrev pub if_read : {A : Type 0} → (List User → A) → A → List User × Bool → A × Bool
if_read f empty (users, true) = (f users, true)
if_read f empty (users, false) = (empty, false)

module _ (c : Collection User) where
  -- Each with the test that there was no error.
  unfoldable pub find_user_data_chain : ℕ → ℕ → c.State → Owners × Bool
  find_user_data_chain currency network s =
      if_read (λ users. data_users currency network users []) [] (c.find_all (λ u. true) s)

  unfoldable pub find_users_contracts_chain : ℕ → ℕ → c.State → List (Str × Str) × Bool
  find_users_contracts_chain currency network s =
      if_read (λ users. contract_users currency network users []) [] (c.find_all (λ u. true) s)

  unfoldable pub get_users_receivers : List Str → c.State → List StartupReceiver × Bool
  get_users_receivers ids s =
      if_read startup_receivers [] (c.find_all (λ u. any (λ id. str_eq u.user_id id) ids) s)

  -- `ConvertToBroken`, which goes on where an update fails.
  unfoldable pub convert_to_broken : List Str → Str → c.State → c.State
  convert_to_broken [] id s = s
  convert_to_broken (a ∷ as') id s =
      convert_to_broken as' id
        (c.update (λ u. is_user id u && has_address a u)
          (λ u. record u {
            wallets =
                modify (λ (w : Wallet). any (λ (x : Address). str_eq x.address a) w.addresses)
                  (λ w. record w { broken_status = 1 }) u.wallets;
          })
          s).1
