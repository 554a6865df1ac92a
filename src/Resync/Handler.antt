-- ===== src/Resync/Handler.antt =====
-- `resyncWallet` of client/rest.go, from the texts of its path. What a goroutine of the handler does is
-- done at once; `none` for the world is the end of the process, since nothing recovers a goroutine.
use multy_back.Prelude.{
  ℕ, ◌%◌, ◌^◌, not, true, Option, none, some, List, [], ◌∷◌, ◌++◌, ◌==◌, if◌then◌else◌, Str,
  to_lower, codes,
}
use multy_back.Currencies.{bitcoin, ether, main, test, eth_main, eth_test}
use multy_back.Store.Schemas.{Address, Wallet, User, asset_multy, asset_imported}
use multy_back.Store.Collection.{Answer, ok, not_found, failed, Collection}
use multy_back.Btc.Schemas.{MultyTx, SpendableOutput, SpentOutput}
use multy_back.Wallets.Params.{has_jwt, is_wallet, err_user_not_found}
use multy_back.Wallets.Delete.{Reply}
use multy_back.Resync.{HistoryBooks, delete_history}
use multy_back.Resync.Texts.{AtoiResult, atoi}

-- The texts of the path and the token of the header, if it has one.
pub record ResyncRequest : Type 0 where
  pub token : Option Str
  pub wallet_index : Str
  pub asset_type : Str
  pub currency_id : Str
  pub network_id : Str

-- What the nodes are told_node.
pub data ResyncEvent : Type 0 where
  bitcoin_resync : (network : ℕ) (address user : Str) (wallet_index address_index : ℕ) → ResyncEvent
  ether_resync : (network : ℕ) (address : Str) → ResyncEvent

abbrev pub resync_accepted : Reply
resync_accepted = record { http = 200; code = 200; message = codes "OK" }

abbrev pub resync_refused : Str → Reply
resync_refused why = record { http = 400; code = 400; message = why }

abbrev pub unauthorized : Reply
unauthorized = record { http = 401; code = 401; message = err_user_not_found }

-- The addresses of the last wallet that fits.
unfoldable pub addresses_to_resync : ℕ → ℕ → ℕ → List Wallet → List Address → List Address
addresses_to_resync currency network index [] found = found
addresses_to_resync currency network index (w ∷ ws) found =
    addresses_to_resync currency network index ws
      (if is_wallet currency network index w then w.addresses else found)

-- Without a slash and a number the asset is a Multy address.
unfoldable pub asset_of : Str → AtoiResult
unfolding atoi
asset_of [] = record { value = asset_multy; is_number = true }
asset_of (c ∷ s) = atoi s

-- An index that is no number is an address.
unfoldable pub path_of_index : Str → Str
unfolding atoi
path_of_index text = if (atoi text).is_number then [] else to_lower text

-- A request with its numbers.
pub record Asked : Type 0 where
  pub wallet_index : ℕ
  pub derivation_path : Str
  pub asset_type : ℕ
  pub currency_id : ℕ
  pub network_id : ℕ

unfoldable pub ether_events : ℕ → List Address → List ResyncEvent
ether_events network [] = []
ether_events network (x ∷ xs) = ether_resync network x.address ∷ ether_events network xs

unfoldable pub asked_of : ResyncRequest → Asked
unfolding atoi asset_of path_of_index
asked_of r = record {
  wallet_index = (atoi r.wallet_index).value;
  derivation_path = path_of_index r.wallet_index;
  asset_type = (asset_of r.asset_type).value;
  currency_id = (atoi r.currency_id).value;
  network_id = (atoi r.network_id).value;
}

-- The refusal of the first text that should be a number and is none.
unfoldable pub wrong_number : ResyncRequest → Option Str
unfolding atoi asset_of
wrong_number r =
    if not (asset_of r.asset_type).is_number
    then some (codes "wrong type")
    else if not (atoi r.currency_id).is_number
    then some (codes "wrong currency index")
    else if not (atoi r.network_id).is_number
    then some (codes "wrong networkid index")
    else none

module _ (c : Collection User) (txs : Collection MultyTx) (outs : Collection SpendableOutput)
    (spend : Collection SpentOutput) where
  pub record ResyncWorld : Type 0 where
    pub books : HistoryBooks txs outs spend
    -- The map of the addresses that are being resynced.
    pub resyncs : List Str
    pub events : List ResyncEvent

  unfoldable pub resync_bitcoin : Str → Asked → List Address → ResyncWorld → ResyncWorld
  unfolding delete_history
  resync_bitcoin user q [] w = w
  resync_bitcoin user q (x ∷ xs) w = resync_bitcoin user q xs (record {
    books = delete_history txs outs spend q.currency_id q.network_id x.address w.books;
    resyncs = w.resyncs ++ x.address ∷ [];
    events =
        w.events
        ++ bitcoin_resync q.network_id x.address user (q.wallet_index % 2 ^ 32)
            (x.address_index % 2 ^ 32)
          ∷ [];
  })

  -- The calls on the client of the node, which is nil for a network that is neither of the two.
  unfoldable pub tell_ether : ℕ → List ResyncEvent → ResyncWorld → Option ResyncWorld
  tell_ether network [] w = some w
  tell_ether network (e ∷ es) w =
      if network == eth_main
      then some (record w { events = w.events ++ e ∷ es })
      else if network == eth_test
      then some (record w { events = w.events ++ e ∷ es })
      else none

  unfoldable pub resync_ether : Asked → List Address → ResyncWorld → Option ResyncWorld
  unfolding tell_ether ether_events
  resync_ether q addresses w =
      if q.asset_type == asset_multy
      then tell_ether q.network_id (ether_events q.network_id addresses) w
      else if q.asset_type == asset_imported
      then tell_ether q.network_id (ether_resync q.network_id q.derivation_path ∷ []) w
      else some w

  unfoldable pub resync_chain : Str → Asked → List Address → ResyncWorld → Option ResyncWorld
  unfolding resync_bitcoin resync_ether
  resync_chain user q addresses w =
      if q.currency_id == bitcoin
      then (if q.network_id == main
          then some (resync_bitcoin user q addresses w)
          else if q.network_id == test
          then some (resync_bitcoin user q addresses w)
          else some w)
      else if q.currency_id == ether
      then resync_ether q addresses w
      else some w

  -- Without addresses, by the derivation path.
  unfoldable pub resync_path : Str → Str → Asked → ResyncWorld → Reply × Option ResyncWorld
  unfolding resync_chain
  resync_path [] user q w = (resync_refused (codes "user have no transactions"), some w)
  resync_path (letter ∷ letters) user q w = (resync_accepted, resync_chain user q [] w)

  unfoldable pub resync_addresses :
      Str → Asked → List Address → ResyncWorld → Reply × Option ResyncWorld
  unfolding resync_path
  resync_addresses user q (x ∷ xs) w = (resync_accepted, resync_chain user q (x ∷ xs) w)
  resync_addresses user q [] w = resync_path q.derivation_path user q w

  unfoldable pub resync_for : Asked → Answer User → ResyncWorld → Reply × Option ResyncWorld
  unfolding resync_addresses addresses_to_resync
  resync_for q not_found w = (unauthorized, some w)
  resync_for q (failed why) w = (unauthorized, some w)
  resync_for q (ok user) w =
      resync_addresses user.user_id q
        (addresses_to_resync q.currency_id q.network_id q.wallet_index user.wallets []) w

  unfoldable pub resync_decoded :
      Option Str → Str → Asked → c.State → ResyncWorld → Reply × Option ResyncWorld
  unfolding resync_for
  resync_decoded (some why) token q users w = (resync_refused why, some w)
  resync_decoded none token q users w = resync_for q (c.find_one (has_jwt token) users) w

  unfoldable pub resync_with :
      Option Str → ResyncRequest → c.State → ResyncWorld → Reply × Option ResyncWorld
  unfolding resync_decoded asked_of wrong_number
  resync_with none r users w = (resync_refused (codes "wrong authorization headers"), some w)
  resync_with (some token) r users w = resync_decoded (wrong_number r) token (asked_of r) users w

  unfoldable pub resync_wallet : ResyncRequest → c.State → ResyncWorld → Reply × Option ResyncWorld
  unfolding resync_with
  resync_wallet r users w = resync_with r.token r users w
