-- ===== src/Wallets/Create.antt =====
-- `createCustomWallet` and `createCustomMultisig`.
use multy_back.Prelude.{
  ℕ, Bool, true, false, ◌&&◌, some, List, [], ◌∷◌, ◌++◌, any, ◌==◌, ltb, length, if◌then◌else◌, Str,
  str_eq, codes, to_lower,
}
use multy_back.Currencies.{ether}
use multy_back.Store.Schemas.{
  Address, Wallet, User, Multisig, wallet_ok, wallet_deleted, waiting_for_join,
}
use multy_back.Store.Collection.{Answer, ok, not_found, failed, Collection}
use multy_back.Wallets.Params.{
  WalletParams, Clock, no_index, has_jwt, is_wallet, Watch, new_address_node, Result, write_error,
  err_user_not_found, err_wallet_index, err_known_address, err_bad_address,
}

-- `createWallet`
unfoldable pub create_wallet : ℕ → ℕ → Str → ℕ → ℕ → Str → Bool → Str → Clock → Wallet
create_wallet currency network a address_index index name is_imported status clock = record {
  currency_id = currency;
  network_id = network;
  wallet_index = index;
  wallet_name = name;
  last_action_time = clock.seconds;
  date_of_creation = clock.nanoseconds;
  addresses =
      record { address_index = address_index; address = a; last_action_time = clock.seconds } ∷ [];
  status = status;
  is_imported = is_imported;
  broken_status = 0;
}

unfoldable pub internal_address : WalletParams → Str
internal_address wp = if wp.currency_id == ether then to_lower wp.address else wp.address

unfoldable pub internal_wallet : WalletParams → Bool → Clock → Wallet
internal_wallet wp is_empty clock =
    create_wallet wp.currency_id wp.network_id (internal_address wp) wp.address_index
      wp.wallet_index wp.wallet_name wp.is_imported (if is_empty then wallet_deleted else wallet_ok)
      clock

unfoldable pub imported_wallet : WalletParams → Clock → Wallet
imported_wallet wp clock =
    create_wallet wp.currency_id wp.network_id (to_lower wp.address) 0 no_index wp.wallet_name
      wp.is_imported wallet_ok clock

first_is : Str → List Address → Bool
first_is a [] = false
first_is a (x ∷ xs) = str_eq x.address a

-- A wallet whose first address is the one to be imported.
unfoldable pub is_known : WalletParams → Wallet → Bool
unfolding first_is
is_known wp w =
    w.currency_id == wp.currency_id
    && w.network_id == wp.network_id
    && first_is wp.address w.addresses

-- `createMultisig`
unfoldable pub create_multisig : WalletParams → Str → Clock → Multisig
create_multisig wp user_id clock = record {
  currency_id = wp.currency_id;
  network_id = wp.network_id;
  confirmations = wp.multisig.signatures_required;
  wallet_name = wp.wallet_name;
  factory_address = [];
  contract_address = [];
  tx_of_creation = [];
  last_action_time = clock.seconds;
  date_of_creation = clock.seconds;
  owners =
      record {
        user_id = user_id;
        address = to_lower wp.address;
        associated = true;
        creator = true;
        wallet_index = wp.wallet_index;
        address_index = wp.address_index;
      }
      ∷ [];
  deploy_status = waiting_for_join;
  status = wallet_ok;
  invite_code = to_lower wp.multisig.invite_code;
  owners_count = wp.multisig.owners_count;
  imported = false;
}

module _ (c : Collection User) where
  -- The node is told before the wallet is written.
  unfoldable pub push_wallet : Str → Wallet → List Watch → c.State → Result c.State
  push_wallet token w watched s =
      let r = c.update (has_jwt token) (λ u. record u { wallets = u.wallets ++ w ∷ [] }) s in
      record { state = r.1; watched = watched; error = write_error r.0 }

  abbrev pub give_up : c.State → Str → Result c.State
  give_up s error = record { state = s; watched = []; error = some error }

  unfoldable pub create_internal :
      WalletParams → Str → Bool → Clock → User → c.State → Result c.State
  create_internal wp token is_empty clock user s =
      if any (is_wallet wp.currency_id wp.network_id wp.wallet_index) user.wallets
      then give_up s err_wallet_index
      else push_wallet token (internal_wallet wp is_empty clock)
          (new_address_node (internal_address wp) user.user_id wp.currency_id wp.network_id
            wp.wallet_index wp.address_index)
          s

  unfoldable pub create_imported : WalletParams → Str → Clock → User → c.State → Result c.State
  create_imported wp token clock user s =
      if any (is_known wp) user.wallets
      then give_up s err_known_address
      else if ltb (length wp.address) 2
      then give_up s err_bad_address
      else push_wallet token (imported_wallet wp clock)
          (new_address_node wp.address (codes "imported") wp.currency_id wp.network_id no_index 0) s

  unfoldable pub create_for :
      WalletParams → Str → Bool → Clock → Answer User → c.State → Result c.State
  create_for wp token is_empty clock (ok user) s =
      if wp.is_imported
      then create_imported wp token clock user s
      else create_internal wp token is_empty clock user s
  create_for wp token is_empty clock not_found s = give_up s err_user_not_found
  create_for wp token is_empty clock (failed why) s = give_up s err_user_not_found

  unfoldable pub create_custom_wallet : WalletParams → Str → Bool → Clock → c.State → Result c.State
  create_custom_wallet wp token is_empty clock s =
      create_for wp token is_empty clock (c.find_one (has_jwt token) s) s

  unfoldable pub create_multisig_for :
      WalletParams → Str → Clock → Answer User → c.State → Result c.State
  create_multisig_for wp token clock (ok user) s =
      let m = create_multisig wp user.user_id clock in
      let r = c.update (has_jwt token) (λ u. record u { multisigs = u.multisigs ++ m ∷ [] }) s in
      record { state = r.1; watched = []; error = write_error r.0 }
  create_multisig_for wp token clock not_found s = give_up s err_user_not_found
  create_multisig_for wp token clock (failed why) s = give_up s err_user_not_found

  unfoldable pub create_custom_multisig : WalletParams → Str → Clock → c.State → Result c.State
  create_custom_multisig wp token clock s =
      create_multisig_for wp token clock (c.find_one (has_jwt token) s) s
