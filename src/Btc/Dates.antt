-- ===== src/Btc/Dates.antt =====
-- `updateWalletAndAddressDate` of btc/utils.go: the wallets that a transaction names are active.
use multy_back.Prelude.{
  ℕ, Bool, ◌&&◌, Option, none, some, List, [], ◌∷◌, ◌++◌, any, if◌then◌else◌, Str, str_eq, codes,
}
use multy_back.Store.Schemas.{Address, Wallet, User}
use multy_back.Store.Collection.{Answer, ok, not_found, failed, Collection}
use multy_back.Store.Multisigs.{is_user, has_address}
use multy_back.Ether.Dates.{touch}
use multy_back.Btc.Schemas.{WalletForTx, MultyTx}

unfoldable pub holds_address : Str → Wallet → Bool
holds_address a w = any (λ (x : Address). str_eq x.address a) w.addresses

-- What is written is the change of the last wallet that has the address, on whatever chain it is.
unfoldable pub touch_holder : Str → ℕ → List Wallet → List Wallet
unfolding touch holds_address
touch_holder a now [] = []
touch_holder a now (w ∷ ws) =
    let rest = touch_holder a now ws in
    if any (holds_address a) ws
    then w ∷ rest
    else if holds_address a w
    then touch a now w ∷ ws
    else w ∷ ws

abbrev pub wallets_read : Answer User → List Wallet
wallets_read (ok user) = user.wallets
wallets_read not_found = []
wallets_read (failed why) = []

abbrev pub date_error : Answer (Unit {0}) → Option Str
date_error (ok u) = none
date_error not_found = some (codes "updateWalletAndAddressDate:usersData.Update: not found")
date_error (failed why) = some (codes "updateWalletAndAddressDate:usersData.Update: " ++ why)

module _ (c : Collection User) where
  unfoldable pub date_wallet : ℕ → WalletForTx → c.State → Option Str × c.State
  unfolding touch_holder
  date_wallet now w s =
      let a = w.address.address in
      let sel : User → Bool = λ u. is_user w.user_id u && has_address a u in
      let r = c.update sel (λ u. record u { wallets = touch_holder a now u.wallets }) s in
      if any (holds_address a) (wallets_read (c.find_one sel s))
      then (date_error r.0, r.1)
      else (none, s)

  -- The loops return at the first update that fails.
  unfoldable pub date_all : ℕ → List WalletForTx → Option Str × c.State → Option Str × c.State
  unfolding date_wallet
  date_all now [] (why, s) = (why, s)
  date_all now (w ∷ ws) (none, s) = date_all now ws (date_wallet now w s)
  date_all now (w ∷ ws) (some why, s) = (some why, s)

  unfoldable pub date_tx : MultyTx → ℕ → c.State → Option Str × c.State
  unfolding date_all
  date_tx tx now s = date_all now tx.wallets_output (date_all now tx.wallets_input (none, s))
