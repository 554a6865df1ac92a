-- ===== src/Wallets/Update.antt =====
-- `addAddressToWallet` and `changeName`.
use multy_back.Prelude.{
  ℕ, zero, suc, ◌+◌, Bool, false, ◌&&◌, Option, none, some, List, [], ◌∷◌, ◌++◌, any, ◌==◌,
  if◌then◌else◌, Str, str_eq, codes,
}
use multy_back.Store.Schemas.{Address, Wallet, User, asset_multy, asset_imported, asset_multisig}
use multy_back.Store.Collection.{Answer, ok, not_found, failed, Collection, modify}
use multy_back.Store.Multisigs.{is_user}
use multy_back.Wallets.Params.{
  Clock, has_jwt, is_wallet, has_parts, Result, write_error, err_user_not_found, err_address_index,
  err_no_wallet,
}

-- The path `wallets.<position>`: a change of one wallet.
unfoldable pub at_position : ℕ → (Wallet → Wallet) → List Wallet → List Wallet
at_position i f [] = []
at_position zero f (w ∷ ws) = f w ∷ ws
at_position (suc i) f (w ∷ ws) = w ∷ at_position i f ws

-- The loop of `addAddressToWallet` goes on to the last wallet that fits: `i` is the index, `position`
-- what was found, which is 0 at the start.
unfoldable pub last_position : (Wallet → Bool) → ℕ → ℕ → List Wallet → ℕ
last_position fits i position [] = position
last_position fits i position (w ∷ ws) =
    last_position fits (i + 1) (if fits w then i else position) ws

-- The loops that end at the first wallet that fits, and stay at 0 where there is none.
unfoldable pub first_position : (Wallet → Bool) → ℕ → List Wallet → ℕ
first_position fits i [] = 0
first_position fits i (w ∷ ws) =
    let rest = first_position fits (i + 1) ws in if fits w then i else rest

unfoldable pub has_index : ℕ → Wallet → Bool
has_index address_index w = any (λ (a : Address). a.address_index == address_index) w.addresses

unfoldable pub index_is_taken : (Wallet → Bool) → ℕ → List Wallet → Bool
index_is_taken fits address_index = any (λ w. fits w && has_index address_index w)

unfoldable pub push_address : Address → Wallet → Wallet
push_address a w = record w { addresses = w.addresses ++ a ∷ [] }

pub record ChangeName : Type 0 where
  pub wallet_name : Str
  pub currency_id : ℕ
  pub wallet_index : ℕ
  pub network_id : ℕ
  pub address : Str
  pub kind : ℕ

abbrev pub rename : Str → Wallet → Wallet
rename name w = record w { wallet_name = name }

unfoldable pub has_address_in : Str → Wallet → Bool
has_address_in a w = any (λ (x : Address). str_eq x.address a) w.addresses

unfoldable pub prefixed : Str → Answer (Unit {0}) → Option Str
prefixed text (ok _) = none
prefixed text not_found = some (text ++ codes "not found")
prefixed text (failed why) = some (text ++ why)

-- The changes of the names, by the kind of the wallet.
unfoldable pub rename_first : ChangeName → User → List Wallet → List Wallet
rename_first cn user =
    at_position
      (first_position (is_wallet cn.currency_id cn.network_id cn.wallet_index) 0 user.wallets)
      (rename cn.wallet_name)

unfoldable pub rename_at : ChangeName → List Wallet → List Wallet
rename_at cn = modify (has_address_in cn.address) (rename cn.wallet_name)

unfoldable pub has_wallet : ChangeName → User → User → Bool
has_wallet cn user u =
    is_user user.user_id u
    && any (λ (w : Wallet). w.wallet_index == cn.wallet_index) u.wallets
    && any (λ (w : Wallet). w.network_id == cn.network_id) u.wallets

unfoldable pub has_imported : ChangeName → User → User → Bool
has_imported cn user u = is_user user.user_id u && any (has_address_in cn.address) u.wallets

module _ (c : Collection User) where
  unfoldable pub add_for :
      Str → Str → ℕ → ℕ → ℕ → ℕ → Clock → Answer User → c.State → Result c.State
  add_for a token currency network index address_index clock (ok user) s =
      let fits = is_wallet currency network index in
      let position = last_position fits 0 0 user.wallets in
      let addr : Address = record {
        address_index = address_index;
        address = a;
        last_action_time = clock.seconds;
      } in
      let r =
        c.update (λ u. has_jwt token u && has_parts currency network index u)
          (λ u. record u { wallets = at_position position (push_address addr) u.wallets }) s in
      if index_is_taken fits address_index user.wallets
      then record { state = s; watched = []; error = some err_address_index }
      else record { state = r.1; watched = []; error = write_error r.0 }
  add_for a token currency network index address_index clock not_found s = record {
    state = s;
    watched = [];
    error = some err_user_not_found;
  }
  add_for a token currency network index address_index clock (failed why) s = record {
    state = s;
    watched = [];
    error = some err_user_not_found;
  }

  unfoldable pub add_address_to_wallet :
      Str → Str → ℕ → ℕ → ℕ → ℕ → Clock → c.State → Result c.State
  add_address_to_wallet a token currency network index address_index clock s =
      add_for a token currency network index address_index clock (c.find_one (has_jwt token) s) s

  unfoldable pub rename_update :
      (User → Bool) → (List Wallet → List Wallet) → Str → c.State → Option Str × c.State
  rename_update sel f text s =
      let r = c.update sel (λ u. record u { wallets = f u.wallets }) s in (prefixed text r.0, r.1)

  -- The third selector names `multisig.contractaddress`, a field that no document has: the field is
  -- `contractAddress`.
  unfoldable pub change_for : ChangeName → Answer User → c.State → Option Str × c.State
  change_for cn (ok user) s =
      if cn.kind == asset_multy
      then rename_update (has_wallet cn user) (rename_first cn user)
          (codes "changeName:restClient.userStore.Update:AssetTypeMultyAddress ") s
      else if cn.kind == asset_imported
      then rename_update (has_imported cn user) (rename_at cn)
          (codes "changeName:restClient.userStore.Update:AssetTypeImportedAddress ") s
      else if cn.kind == asset_multisig
      then rename_update (λ u. false) (λ ws. ws)
          (codes "changeName:restClient.userStore.Update:AssetTypeMultisig ") s
      else (some err_no_wallet, s)
  change_for cn not_found s = (some err_user_not_found, s)
  change_for cn (failed why) s = (some err_user_not_found, s)

  unfoldable pub change_name : ChangeName → Str → c.State → Option Str × c.State
  change_name cn token s = change_for cn (c.find_one (has_jwt token) s) s
