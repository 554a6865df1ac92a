-- ===== src/Wallets/Delete.antt =====
-- `DeleteWallet` of the store, `deleteWallet` of the REST interface, and the lists of wallets.
use multy_back.Prelude.{
  ℕ, ◌+◌, ◌%◌, Bool, ◌&&◌, ◌||◌, Option, none, some, List, [], ◌∷◌, any, keep_if, ◌==◌, ltb, length,
  if◌then◌else◌, i64_mod, Str, str_eq, codes,
}
use multy_back.Currencies.{bitcoin, ether, main, test, eth_main, eth_test}
use multy_back.Store.Schemas.{
  Address, Wallet, User, asset_multy, asset_imported, wallet_ok, wallet_deleted,
  maximum_empty_wallets,
}
use multy_back.Store.Collection.{Answer, ok, not_found, failed, Collection, modify}
use multy_back.Store.Multisigs.{is_user}
use multy_back.Wallets.Params.{has_jwt, is_wallet, has_parts, err_no_wallet, err_user_not_found}
use multy_back.Wallets.Update.{at_position, first_position, has_address_in}

abbrev pub mark_deleted : Wallet → Wallet
mark_deleted w = record w { status = wallet_deleted }

-- What `DeleteWallet` writes over the wallets of a user, given those it has read.
unfoldable pub delete_in : ℕ → ℕ → ℕ → List Wallet → List Wallet → List Wallet
delete_in currency network index read =
    at_position (first_position (is_wallet currency network index) 0 read) mark_deleted

unfoldable pub fetch_undeleted_wallets : List Wallet → List Wallet
fetch_undeleted_wallets = keep_if (λ w. str_eq w.status wallet_ok)

-- `findTopIndexes`: a map from the chains to the number of their wallets, in the order in which the
-- chains first come; the code ranges over it in any order.
pub record TopIndex : Type 0 where
  pub currency_id : ℕ
  pub network_id : ℕ
  pub top_index : ℕ

unfoldable pub count_wallet : Wallet → List TopIndex → List TopIndex
count_wallet w [] =
    record { currency_id = w.currency_id; network_id = w.network_id; top_index = 1 } ∷ []
count_wallet w (t ∷ ts) =
    let rest = count_wallet w ts in
    if t.currency_id == w.currency_id && t.network_id == w.network_id
    then record t { top_index = t.top_index + 1 } ∷ ts
    else t ∷ rest

unfoldable pub top_indexes_from : List TopIndex → List Wallet → List TopIndex
top_indexes_from tops [] = tops
top_indexes_from tops (w ∷ ws) = top_indexes_from (count_wallet w tops) ws

unfoldable pub find_top_indexes : List Wallet → List TopIndex
find_top_indexes = top_indexes_from []

-- The number of wallets of a chain, by which `CheckAddWallet` decides.
unfoldable pub chain_count : ℕ → ℕ → List Wallet → ℕ
chain_count currency network ws =
    length (keep_if (λ (w : Wallet). w.currency_id == currency && w.network_id == network) ws)

-- `total := … += balance(address)` over the addresses of the wallets with an index.
unfoldable pub add_balances : (Str → ℕ) → List Address → ℕ → ℕ
add_balances balance [] total = total
add_balances balance (a ∷ as') total =
    add_balances balance as' ((total + balance a.address) % i64_mod)

unfoldable pub total_balance : (Str → ℕ) → ℕ → List Wallet → ℕ → ℕ
total_balance balance index [] total = total
total_balance balance index (w ∷ ws) total =
    total_balance balance index ws
      (if w.wallet_index == index then add_balances balance w.addresses total else total)

-- The first address of the last wallet with an index that has any.
unfoldable pub first_or : Str → List Address → Str
first_or a [] = a
first_or a (x ∷ xs) = x.address

unfoldable pub ether_address : ℕ → List Wallet → Str → Str
unfolding first_or
ether_address index [] a = a
ether_address index (w ∷ ws) a =
    ether_address index ws (if w.wallet_index == index then first_or a w.addresses else a)

pub record Reply : Type 0 where
  pub http : ℕ
  pub code : ℕ
  pub message : Str

abbrev pub deleted_ok : Reply
deleted_ok = record { http = 200; code = 200; message = codes "OK" }

abbrev pub funded : Reply
funded = record { http = 400; code = 400; message = codes "can't delete non zero balance wallet" }

abbrev pub not_deleted : Reply
not_deleted = record { http = 400; code = 500; message = err_no_wallet }

abbrev pub no_chain : Reply
no_chain = record { http = 400; code = 400; message = codes "current chain is not implemented" }

abbrev pub no_user : Reply
no_user = record { http = 401; code = 400; message = err_user_not_found }

-- What the nodes answer: the sum of an address's spendable outputs, and the balance on either network
-- of Ethereum, where an error leaves a nil pointer.
pub record Balances : Type 0 where
  pub spendable : Str → ℕ
  pub main_balance : Str → Option Str
  pub test_balance : Str → Option Str

-- The answer of the test network is asked for and dropped: the empty balance stays.
abbrev pub dropped : Option Str → Option Str
dropped answer = some []

pub record DeleteRequest : Type 0 where
  pub wallet_index : ℕ
  pub derivation_path : Str
  pub asset_type : ℕ
  pub currency_id : ℕ
  pub network_id : ℕ

unfoldable pub is_nought : Str → Bool
is_nought balance = str_eq balance (codes "0") || str_eq balance []

module _ (c : Collection User) where
  unfoldable pub delete_read : ℕ → ℕ → ℕ → Str → Answer User → c.State → Answer (Unit {0}) × c.State
  delete_read index currency network id (ok user) s =
      c.update (λ u. is_user id u && has_parts currency network index u)
        (λ u. record u { wallets = delete_in currency network index user.wallets u.wallets }) s
  delete_read index currency network id not_found s = (not_found, s)
  delete_read index currency network id (failed why) s = (failed why, s)

  is_imported_at : Str → Wallet → Bool
  is_imported_at a w = has_address_in a w

  -- `DeleteWallet`; for a multisig it does nothing. Of an imported wallet `$` is taken to be the first
  -- wallet with the address.
  unfoldable pub delete_wallet : Str → Str → ℕ → ℕ → ℕ → ℕ → c.State → Answer (Unit {0}) × c.State
  unfolding delete_read is_imported_at
  delete_wallet id a index currency network asset s =
      if asset == asset_multy
      then delete_read index currency network id (c.find_one (is_user id) s) s
      else if asset == asset_imported
      then c.update
          (λ u.
            is_user id u
            && any (is_imported_at a) u.wallets
            && any (λ (w : Wallet). w.is_imported) u.wallets)
          (λ u. record u { wallets = modify (is_imported_at a) mark_deleted u.wallets }) s
      else (ok tt, s)

  unfoldable pub deletion : Answer (Unit {0}) × c.State → Reply × c.State
  deletion (ok _, s) = (deleted_ok, s)
  deletion (not_found, s) = (not_deleted, s)
  deletion (failed why, s) = (not_deleted, s)

  -- `none` is a panic.
  unfoldable pub delete_by_balance :
      DeleteRequest → User → Option Str → c.State → Option (Reply × c.State)
  unfolding is_nought deletion
  delete_by_balance q user none s = none
  delete_by_balance q user (some balance) s =
      if is_nought balance
      then some (
          deletion (
            delete_wallet user.user_id q.derivation_path q.wallet_index q.currency_id q.network_id
              q.asset_type s))
      else some (funded, s)

  unfoldable pub delete_ether : Balances → DeleteRequest → User → c.State → Option (Reply × c.State)
  delete_ether b q user s =
      delete_by_balance q user
        (if q.network_id == eth_main
          then b.main_balance (ether_address q.wallet_index user.wallets [])
          else if q.network_id == eth_test
          then dropped (b.test_balance (ether_address q.wallet_index user.wallets []))
          else some [])
        s

  unfoldable pub bitcoin_total : Balances → DeleteRequest → User → ℕ
  bitcoin_total b q user =
      if q.network_id == main || q.network_id == test
      then total_balance b.spendable q.wallet_index user.wallets 0
      else 0

  unfoldable pub delete_bitcoin : Balances → DeleteRequest → User → c.State → Reply × c.State
  unfolding deletion
  delete_bitcoin b q user s =
      if bitcoin_total b q user == 0
      then deletion
          (delete_wallet user.user_id [] q.wallet_index q.currency_id q.network_id asset_multy s)
      else (funded, s)

  unfoldable pub delete_for :
      Balances → DeleteRequest → Answer User → c.State → Option (Reply × c.State)
  delete_for b q (ok user) s =
      if q.currency_id == bitcoin
      then some (delete_bitcoin b q user s)
      else if q.currency_id == ether
      then delete_ether b q user s
      else some (no_chain, s)
  delete_for b q not_found s = some (no_user, s)
  delete_for b q (failed why) s = some (no_user, s)

  -- `deleteWallet`, from the parameters of its path.
  unfoldable pub delete_request :
      Balances → DeleteRequest → Str → c.State → Option (Reply × c.State)
  delete_request b q token s = delete_for b q (c.find_one (has_jwt token) s) s

  unfoldable pub check_count : ℕ → ℕ → (Str → ℕ) → Answer User → Option Str
  check_count currency network txs (ok user) =
      if ltb (chain_count currency network user.wallets) maximum_empty_wallets
      then none
      else if (currency == ether || currency == bitcoin) && txs user.user_id == 0
      then some (codes "maximum available wallets count")
      else none
  check_count currency network txs not_found = some (codes "not found")
  check_count currency network txs (failed why) = some why

  -- `CheckAddWallet`: `txs` is the number of the transactions that the history of the chain has for
  -- a user, and 0 for a network without one.
  unfoldable pub check_add_wallet : ℕ → ℕ → (Str → ℕ) → Str → c.State → Option Str
  unfolding check_count
  check_add_wallet currency network txs token s =
      check_count currency network txs (c.find_one (has_jwt token) s)
