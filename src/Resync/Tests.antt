-- ===== src/Resync/Tests.antt =====
-- A resync by alice, who has a wallet on each chain, among the histories of two addresses.
use multy_back.Prelude.{
  ◌≡◌, ◌≢◌, refl, inl, some, none, [], ◌∷◌, codes, Str, str_eq, Bool, false, arith, ◌↔◌, ap,
  to_lower, lower, find, subst, str_eq_refl,
}
use multy_back.Currencies.{bitcoin, main, eth_main, eth_test}
use multy_back.Store.Schemas.{User, Wallet, wallet_ok}
use multy_back.Store.Collection.{Collection, ok, remove_first}
use multy_back.Store.Memory.{memory, found, memory_remove}
use multy_back.Btc.Schemas.{MultyTx, SpendableOutput, SpentOutput, empty_tx}
use multy_back.Wallets.Params.{has_jwt}
use multy_back.Resync.{HistoryBooks, delete_history, get_address_spendable_outputs}
use multy_back.Resync.Texts.{atoi}
use multy_back.Resync.Handler.{ResyncRequest, ResyncWorld, resync_wallet, asked_of, wrong_number}
use multy_back.Resync.Frame.{Owned, Kept, resync_wallet-Kept}
use multy_back.Resync.Erased.{get_address_spendable_outputs-delete_history, resync_wallet-ends}

abbrev users : Collection User
users = memory User

abbrev histories : Collection MultyTx
histories = memory MultyTx

abbrev outputs : Collection SpendableOutput
outputs = memory SpendableOutput

abbrev spent : Collection SpentOutput
spent = memory SpentOutput

abbrev wallet : Wallet
wallet = record {
  currency_id = 0;
  network_id = 0;
  wallet_index = 0;
  wallet_name = codes "first";
  last_action_time = 0;
  date_of_creation = 0;
  addresses = record { address_index = 0; address = codes "1a"; last_action_time = 0 } ∷ [];
  status = wallet_ok;
  is_imported = false;
  broken_status = 0;
}

abbrev alice : User
alice = record {
  user_id = codes "alice";
  seed_phrase_type = 0;
  devices =
      record {
        device_id = codes "d";
        push_token = [];
        jwt = codes "t";
        last_action_time = 0;
        last_action_ip = [];
        app_version = [];
        device_type = 0;
      }
      ∷ [];
  wallets = wallet ∷ [];
  multisigs = [];
}

abbrev output_at : Str → SpendableOutput
output_at a = record {
  tx_id = codes "t1";
  tx_out_id = 0;
  tx_out_amount = 5;
  tx_out_script = [];
  address = a;
  user_id = codes "alice";
  wallet_index = 0;
  address_index = 0;
  tx_status = 2;
}

abbrev tx_at : Str → Str → MultyTx
tx_at id a = record empty_tx { tx_id = id; tx_address = a ∷ [] }

abbrev books : HistoryBooks histories outputs spent
books = record {
  main_txs =
      tx_at (codes "t1") (codes "1a")
      ∷ tx_at (codes "t2") (codes "1b")
      ∷ tx_at (codes "t3") (codes "1a")
      ∷ [];
  main_outputs = output_at (codes "1a") ∷ output_at (codes "1b") ∷ [];
  main_spent = [];
  test_txs = [];
  test_outputs = [];
  test_spent = [];
}

abbrev world : ResyncWorld users histories outputs spent
world = record { books = books; resyncs = []; events = [] }

abbrev request : ResyncRequest
request = record {
  token = some (codes "t");
  wallet_index = codes "0";
  asset_type = [];
  currency_id = codes "0";
  network_id = codes "0";
}

numbers : (atoi (codes "12")).value ≡ 12
unfolding atoi
numbers = refl

beyond :
    atoi (codes "9223372036854775808") ≡ record { value = 9223372036854775807; is_number = false }
unfolding atoi
beyond = refl

-- The range is left before the letter is met.
beyond_letter :
    atoi (codes "99999999999999999999x") ≡ record { value = 9223372036854775807; is_number = false }
unfolding atoi
beyond_letter = refl

no_digit : atoi (codes "12x") ≡ record { value = 0; is_number = false }
unfolding atoi
no_digit = refl

-- On the main network the second transaction of the address stays.
left_over :
    (delete_history histories outputs spent bitcoin main (codes "1a") books).main_txs
    ≡ tx_at (codes "t2") (codes "1b") ∷ tx_at (codes "t3") (codes "1a") ∷ []
unfolding delete_history str_eq memory_remove remove_first
left_over = refl

abbrev is_alices : Str → Bool
is_alices a = str_eq a (codes "1a")

only_alice :
    (token : Str) (user : User) → find (has_jwt token) (alice ∷ []) ≡ some user → alice ≡ user
only_alice token user e = ground arith

known_user :
    (token : Str) (user : User)
    → request.token ≡ some token
    → users.find_one (has_jwt token) (alice ∷ []) ≡ ok user
    → Owned is_alices users histories outputs spent user.wallets
known_user token user given read =
    subst (λ u. Owned is_alices users histories outputs spent u.wallets)
      (only_alice token user (users.find_one_ok (has_jwt token) (alice ∷ []) user read))
      ((str_eq_refl (codes "1a"), tt), tt)

resync_wallet-Kept_example :
    Kept is_alices users histories outputs spent world
      (resync_wallet users histories outputs spent request (alice ∷ []) world).1
resync_wallet-Kept_example =
    resync_wallet-Kept is_alices users histories outputs spent request (alice ∷ []) world known_user

get_address_spendable_outputs-delete_history_example :
    (get_address_spendable_outputs histories outputs spent
      (codes "1a")
      bitcoin
      main
      (delete_history histories outputs spent bitcoin main (codes "1a") books)).0
    ≡ []
get_address_spendable_outputs-delete_history_example =
    get_address_spendable_outputs-delete_history histories outputs spent main (codes "1a") books
      (inl (refl, refl))

abbrev fatal : ResyncRequest
fatal = record {
  token = some (codes "t");
  wallet_index = codes "0xA";
  asset_type = codes "/2";
  currency_id = codes "60";
  network_id = codes "7";
}

is_alice : users.find_one (has_jwt (codes "t")) (alice ∷ []) ≡ ok alice
unfolding has_jwt str_eq found
is_alice = refl

fatal_numbers :
    (wrong_number fatal ≡ none)
    × (asked_of fatal ≡ record {
      wallet_index = 0;
      derivation_path = codes "0xa";
      asset_type = 2;
      currency_id = 60;
      network_id = 7;
    })
unfolding wrong_number asked_of to_lower lower
fatal_numbers = (refl, refl)

fatal_path : (asked_of fatal).derivation_path ≢ []
fatal_path e = absurd (cc (e, ap (λ q. q.derivation_path) fatal_numbers.1))

resync_wallet-ends_example :
    ((resync_wallet users histories outputs spent fatal (alice ∷ []) world).1 ≡ none)
    ↔ (((asked_of fatal).network_id ≢ eth_main) × ((asked_of fatal).network_id ≢ eth_test))
resync_wallet-ends_example =
    resync_wallet-ends users histories outputs spent fatal (codes "t") (alice ∷ []) alice world refl
      is_alice fatal_numbers.0 (ap (λ q. q.currency_id) fatal_numbers.1)
      (ap (λ q. q.asset_type) fatal_numbers.1) fatal_path
