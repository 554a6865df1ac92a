-- ===== src/Wallets/Params.antt =====
-- The parameters of the requests, the selectors and the addresses that the nodes are told to watch.
use multy_back.Prelude.{
  ℕ, ◌-◌, ◌%◌, ◌^◌, Bool, ◌&&◌, List, [], ◌∷◌, any, ◌==◌, if◌then◌else◌, Str, str_eq, Option, none,
  some, codes,
}
use multy_back.Currencies.{bitcoin, ether, main, test, eth_main, eth_test}
use multy_back.Store.Schemas.{Device, Wallet, User}
use multy_back.Store.Collection.{Answer, ok, not_found, failed}

pub record MultisigWallet : Type 0 where
  pub is_multisig : Bool
  pub signatures_required : ℕ
  pub owners_count : ℕ
  pub invite_code : Str
  pub is_imported : Bool
  pub contract_address : Str

pub record WalletParams : Type 0 where
  pub currency_id : ℕ
  pub network_id : ℕ
  pub address : Str
  pub address_index : ℕ
  pub wallet_index : ℕ
  pub wallet_name : Str
  pub is_imported : Bool
  pub multisig : MultisigWallet

-- `time.Now()`, in seconds and in nanoseconds.
pub record Clock : Type 0 where
  pub seconds : ℕ
  pub nanoseconds : ℕ

-- The index -1 of an imported wallet.
abbrev pub no_index : ℕ
no_index = 2 ^ 64 - 1

-- The selectors.
unfoldable pub has_jwt : Str → User → Bool
has_jwt token u = any (λ (d : Device). str_eq d.jwt token) u.devices

unfoldable pub is_wallet : ℕ → ℕ → ℕ → Wallet → Bool
is_wallet currency network index w =
    w.currency_id == currency && w.network_id == network && w.wallet_index == index

-- Three conditions on `wallets`, each of which may hold of another wallet.
unfoldable pub has_parts : ℕ → ℕ → ℕ → User → Bool
has_parts currency network index u =
    any (λ (w : Wallet). w.currency_id == currency) u.wallets
    && any (λ (w : Wallet). w.network_id == network) u.wallets
    && any (λ (w : Wallet). w.wallet_index == index) u.wallets

pub data Channel : Type 0 where
  btc_main btc_test eth_main_node eth_test_node : Channel

-- The indexes are 32-bit patterns.
pub record Watch : Type 0 where
  pub channel : Channel
  pub address : Str
  pub user_id : Str
  pub wallet_index : ℕ
  pub address_index : ℕ

-- The channels of a chain's node; other chains have none.
unfoldable pub channels : ℕ → ℕ → List Channel
channels currency network =
    if currency == bitcoin
    then (if network == main then btc_main ∷ [] else if network == test then btc_test ∷ [] else [])
    else if currency == ether
    then (if network == eth_main
        then eth_main_node ∷ []
        else if network == eth_test
        then eth_test_node ∷ []
        else [])
    else []

watch_on : Str → Str → ℕ → ℕ → List Channel → List Watch
watch_on a user index address_index [] = []
watch_on a user index address_index (ch ∷ chs) =
    record {
      channel = ch;
      address = a;
      user_id = user;
      wallet_index = index % 2 ^ 32;
      address_index = address_index % 2 ^ 32;
    }
    ∷ watch_on a user index address_index chs

-- `NewAddressNode`
unfoldable pub new_address_node : Str → Str → ℕ → ℕ → ℕ → ℕ → List Watch
unfolding watch_on
new_address_node a user currency network index address_index =
    watch_on a user index address_index (channels currency network)

abbrev pub err_user_not_found : Str
err_user_not_found = codes "user not found in db"

abbrev pub err_wallet_index : Str
err_wallet_index = codes "already existing wallet index"

abbrev pub err_known_address : Str
err_known_address = codes "already existing wallet address"

abbrev pub err_bad_address : Str
err_bad_address = codes "bad address"

abbrev pub err_address_index : Str
err_address_index = codes "already existing address index"

abbrev pub err_no_wallet : Str
err_no_wallet = codes "no such wallet"

abbrev pub err_server : Str
err_server = codes "internal server error"

-- What is left of a request: the state, what the nodes are told, and the error.
pub record Result (S : Type 0) : Type 0 where
  pub state : S
  pub watched : List Watch
  pub error : Option Str

-- The end of a request that writes: any error of the update is a server error.
abbrev pub write_error : Answer (Unit {0}) → Option Str
write_error (ok _) = none
write_error not_found = some err_server
write_error (failed why) = some err_server
