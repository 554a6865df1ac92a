-- ===== src/Btc/Info.antt =====
-- `setUserID`, and the loops of the handlers that give the wallets of a transaction their indexes. The
-- variable `user` outlives the rounds of both.
use multy_back.Prelude.{List, [], ◌∷◌, Str, str_eq, if◌then◌else◌}
use multy_back.Store.Schemas.{Address, Wallet, User}
use multy_back.Store.Collection.{Answer, ok, not_found, failed, Collection}
use multy_back.Store.Multisigs.{has_address}
use multy_back.Btc.Schemas.{WalletForTx, MultyTx}

-- Go's zero value.
abbrev pub empty_user : User
empty_user = record {
  user_id = [];
  seed_phrase_type = 0;
  devices = [];
  wallets = [];
  multisigs = [];
}

-- `One(&user)`: where it fails, the variable keeps what it was.
unfoldable pub read_user : Answer User → User → User
read_user (ok user) before = user
read_user not_found before = before
read_user (failed why) before = before

unfoldable pub index_at : Wallet → Address → WalletForTx → WalletForTx
index_at wallet x w = record w {
  wallet_index = wallet.wallet_index;
  address = record w.address { address_index = x.address_index };
}

-- The two inner loops: the last address that is the one gives the indexes.
unfoldable pub index_in : Wallet → List Address → WalletForTx → WalletForTx
unfolding index_at
index_in wallet [] w = w
index_in wallet (x ∷ xs) w =
    index_in wallet xs (if str_eq x.address w.address.address then index_at wallet x w else w)

unfoldable pub index_wallets : List Wallet → WalletForTx → WalletForTx
unfolding index_in
index_wallets [] w = w
index_wallets (wallet ∷ ws) w = index_wallets ws (index_in wallet wallet.addresses w)

unfoldable pub index_read : Answer User → User → WalletForTx → WalletForTx
unfolding index_wallets read_user
index_read not_found before w = w
index_read (ok user) before w = index_wallets user.wallets w
index_read (failed why) before w = index_wallets before.wallets w

module _ (c : Collection User) where
  unfoldable pub set_user_id_from : List Str → User → Str → c.State → Str
  unfolding read_user
  set_user_id_from [] user id s = id
  set_user_id_from (a ∷ more) user id s =
      let user' = read_user (c.find_one (has_address a) s) user in
      set_user_id_from more user' user'.user_id s

  unfoldable pub set_user_id : MultyTx → c.State → MultyTx
  unfolding set_user_id_from
  set_user_id tx s = record tx { user_id = set_user_id_from tx.tx_address empty_user tx.user_id s }

  -- The loop over the wallets of the inputs, or of the outputs, with the user it leaves behind.
  unfoldable pub index_all : User → List WalletForTx → c.State → List WalletForTx × User
  unfolding index_read read_user
  index_all user [] s = ([], user)
  index_all user (w ∷ ws) s =
      let a = c.find_one (has_address w.address.address) s in
      let rest = index_all (read_user a user) ws s in (index_read a user w ∷ rest.0, rest.1)

  unfoldable pub set_indexes : MultyTx → c.State → MultyTx
  unfolding index_all
  set_indexes tx s =
      let ins = index_all empty_user tx.wallets_input s in
      let outs = index_all ins.1 tx.wallets_output s in
      record tx { wallets_input = ins.0; wallets_output = outs.0 }
