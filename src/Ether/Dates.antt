-- ===== src/Ether/Dates.antt =====
-- `updateWalletAndAddressDate`: a transaction marks the sender's and the receiver's wallet as active.
use multy_back.Prelude.{
  ℕ, Bool, ◌&&◌, Option, none, some, List, [], ◌∷◌, ◌++◌, ◌==◌, any, if◌then◌else◌, Str, str_eq,
  codes,
}
use multy_back.Store.Schemas.{Address, Wallet, User, TransactionEth, wallet_ok}
use multy_back.Store.Collection.{Answer, ok, not_found, failed, Collection}
use multy_back.Store.Multisigs.{is_user, has_address}

-- The first address of a wallet that is the one.
unfoldable pub touch_address : Str → ℕ → List Address → List Address
touch_address a now [] = []
touch_address a now (x ∷ xs) =
    let rest = touch_address a now xs in
    if str_eq x.address a then record x { last_action_time = now } ∷ xs else x ∷ rest

unfoldable pub is_wallet_of : Str → ℕ → Wallet → Bool
is_wallet_of a network w =
    any (λ (x : Address). str_eq x.address a) w.addresses && w.network_id == network

unfoldable pub touch : Str → ℕ → Wallet → Wallet
unfolding touch_address
touch a now w = record w {
  last_action_time = now;
  addresses = touch_address a now w.addresses;
  status = wallet_ok;
}

-- The `break` ends the inner loop alone: what is written is the change of the last wallet that fits.
unfoldable pub touch_last : Str → ℕ → ℕ → List Wallet → List Wallet
unfolding touch
touch_last a network now [] = []
touch_last a network now (w ∷ ws) =
    let rest = touch_last a network now ws in
    if any (is_wallet_of a network) ws
    then w ∷ rest
    else if is_wallet_of a network w
    then touch a now w ∷ ws
    else w ∷ ws

abbrev wallets_of : Answer User → List Wallet
wallets_of (ok user) = user.wallets
wallets_of not_found = []
wallets_of (failed why) = []

abbrev dated : Answer (Unit {0}) → Option Str
dated (ok _) = none
dated not_found = some (codes "updateWalletAndAddressDate:usersData.Update: not found")
dated (failed why) = some (codes "updateWalletAndAddressDate:usersData.Update: " ++ why)

module _ (c : Collection User) where
  -- One of the two halves, for an address. The positions are those of the user that was read, on whom
  -- the update is made.
  unfoldable pub date_address : Str → Str → ℕ → ℕ → c.State → Option Str × c.State
  date_address id a network now s =
      let sel : User → Bool = λ u. is_user id u && has_address a u in
      let r = c.update sel (λ u. record u { wallets = touch_last a network now u.wallets }) s in
      if any (is_wallet_of a network) (wallets_of (c.find_one sel s))
      then (dated r.0, r.1)
      else (none, s)

  abbrev date_receiver : TransactionEth → ℕ → ℕ → Option Str × c.State → Option Str × c.State
  date_receiver tx network now (none, s) = date_address tx.user_id tx.receiver network now s
  date_receiver tx network now (some why, s) = (some why, s)

  unfoldable pub update_wallet_and_address_date :
      TransactionEth → ℕ → ℕ → c.State → Option Str × c.State
  update_wallet_and_address_date tx network now s =
      date_receiver tx network now (date_address tx.user_id tx.sender network now s)
