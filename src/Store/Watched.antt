-- ===== src/Store/Watched.antt =====
-- Which addresses the nodes are told to watch.
use multy_back.Prelude.{
  ℕ, ◌≡◌, refl, ap, ◌∙◌, Bool, true, false, ◌&&◌, ◌||◌, List, [], ◌∷◌, arith, any, keep_if, Str,
  str_eq, str_eq_iff,
}
use multy_back.Store.Schemas.{Address, Wallet, User, AddressExtended}
use multy_back.Store.Collection.{Collection}
use multy_back.Store.Queries.{
  put_entry, has_key, on_chain, Owners, data_addresses, data_wallets, data_users,
  find_user_data_chain, if_read,
}

has_key-put_entry :
    (a key : Str) (v : AddressExtended) (owners : Owners)
    → has_key a (put_entry key v owners) ≡ (str_eq key a || has_key a owners)
unfolding has_key put_entry
has_key-put_entry a key v [] = ground arith
has_key-put_entry a key v ((k, w) ∷ owners) =
    ground
      (arith, has_key-put_entry a key v owners, str_eq_iff k key, str_eq_iff key a, str_eq_iff k a)

abbrev pub is_at : Str → Address → Bool
is_at a x = str_eq x.address a

abbrev pub wallet_has : ℕ → ℕ → Str → Wallet → Bool
wallet_has currency network a w = on_chain currency network w && any (is_at a) w.addresses

abbrev pub user_has : ℕ → ℕ → Str → User → Bool
user_has currency network a u = any (wallet_has currency network a) u.wallets

has_key-data_addresses :
    (a id : Str) (index : ℕ) (xs : List Address) (owners : Owners)
    → has_key a (data_addresses id index xs owners) ≡ (any (is_at a) xs || has_key a owners)
unfolding data_addresses
has_key-data_addresses a id index [] owners = refl
has_key-data_addresses a id index (x ∷ xs) owners =
    let entry : AddressExtended = record {
      user_id = id;
      address = [];
      associated = false;
      creator = false;
      wallet_index = index;
      address_index = x.address_index;
    } in
    ground (
      arith,
      has_key-data_addresses a id index xs (put_entry x.address entry owners),
      has_key-put_entry a x.address entry owners,
    )

module _ (currency network : ℕ) (a : Str) where
  has_key-data_wallets :
      (id : Str) (ws : List Wallet) (owners : Owners)
      → has_key a (data_wallets currency network id ws owners)
        ≡ (any (wallet_has currency network a) ws || has_key a owners)
  unfolding data_wallets
  has_key-data_wallets id [] owners = refl
  has_key-data_wallets id (w ∷ ws) owners = ground (
    arith,
    has_key-data_wallets id ws (data_addresses id w.wallet_index w.addresses owners),
    has_key-data_wallets id ws owners,
    has_key-data_addresses a id w.wallet_index w.addresses owners,
  )

  has_key-data_users :
      (us : List User) (owners : Owners)
      → has_key a (data_users currency network us owners)
        ≡ (any (user_has currency network a) us || has_key a owners)
  unfolding data_users
  has_key-data_users [] owners = refl
  has_key-data_users (u ∷ us) owners = ground (
    arith,
    has_key-data_users us (data_wallets currency network u.user_id u.wallets owners),
    has_key-data_wallets u.user_id u.wallets owners,
  )

keep_if_all : (us : List User) → keep_if (λ u. true) us ≡ us
keep_if_all [] = refl
keep_if_all (u ∷ us) = ap (λ t. u ∷ t) (keep_if_all us)

read_has_key :
    (currency network : ℕ) (a : Str) (r : List User × Bool)
    → r.1 ≡ true
    → has_key a (if_read (λ users. data_users currency network users []) [] r).0
      ≡ any (user_has currency network a) r.0
unfolding has_key
read_has_key currency network a (users, true) complete =
    ground (arith, has_key-data_users currency network a users [])
read_has_key currency network a (users, false) complete = absurd (cc complete)

module _ (c : Collection User) where
  -- Where the read of the users does not break off, `FindUserDataChain` has an address exactly if
  -- some user has it in a wallet of the chain and network.
  pub find_user_data_chain-has_key :
      (currency network : ℕ) (a : Str) (s : c.State)
      → (c.find_all (λ u. true) s).1 ≡ true
      → has_key a (find_user_data_chain c currency network s).0
        ≡ any (user_has currency network a) (c.docs s)
  unfolding find_user_data_chain
  find_user_data_chain-has_key currency network a s complete =
      let r = c.find_all (λ u. true) s in
      let all_users : r.0 ≡ c.docs s =
        c.find_all_ok (λ u. true) s complete ∙ keep_if_all (c.docs s) in
      read_has_key currency network a r complete ∙ ap (any (user_has currency network a)) all_users
