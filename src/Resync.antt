-- ===== src/Resync.antt =====
-- The reads of the histories in store/store.go, the deletion of an address's history, and the resync
-- of a wallet that starts with it (client/rest.go).
pub mod Texts
pub mod Handler
pub mod Erased
pub mod Frame
mod Tests
use multy_back.Prelude.{ℕ, Bool, true, not, ◌||◌, List, [], any, ◌==◌, if◌then◌else◌, Str, str_eq}
use multy_back.Currencies.{bitcoin, ether, main, test, eth_main, eth_test}
use multy_back.Store.Schemas.{User, TransactionEth}
use multy_back.Store.Collection.{Answer, ok, not_found, failed, Collection}
use multy_back.Btc.Schemas.{MultyTx, SpendableOutput, SpentOutput}

-- The selectors.
unfoldable pub has_tx_address : Str → MultyTx → Bool
has_tx_address a d = any (λ x. str_eq x a) d.tx_address

unfoldable pub is_spendable_of : Str → SpendableOutput → Bool
is_spendable_of a o = str_eq o.address a

unfoldable pub is_spent_of : Str → SpentOutput → Bool
is_spent_of a o = str_eq o.address a

unfoldable pub is_between : Str → TransactionEth → Bool
is_between a d = str_eq d.receiver a || str_eq d.sender a

-- A search that is answered by the documents and whether there was no error; a chain without a
-- collection has neither documents nor an error.
abbrev pub nothing_there : {D : Type 0} → List D × Bool
nothing_there = ([], true)

module _ (txs : Collection MultyTx) (outs : Collection SpendableOutput)
    (spend : Collection SpentOutput) where
  -- The collections of Bitcoin's two networks.
  pub record HistoryBooks : Type 0 where
    pub main_txs : txs.State
    pub main_outputs : outs.State
    pub main_spent : spend.State
    pub test_txs : txs.State
    pub test_outputs : outs.State
    pub test_spent : spend.State

  -- On the main network a single transaction is removed, on the test network all. The errors are
  -- dropped, and there is never one to return.
  unfoldable pub delete_history : ℕ → ℕ → Str → HistoryBooks → HistoryBooks
  unfolding has_tx_address is_spendable_of is_spent_of
  delete_history currency network a b =
      if currency == bitcoin
      then (if network == main
          then record b {
            main_txs = (txs.remove (has_tx_address a) b.main_txs).1;
            main_outputs = (outs.remove_all (is_spendable_of a) b.main_outputs).1;
            main_spent = (spend.remove_all (is_spent_of a) b.main_spent).1;
          }
          else if network == test
          then record b {
            test_txs = (txs.remove_all (has_tx_address a) b.test_txs).1;
            test_outputs = (outs.remove_all (is_spendable_of a) b.test_outputs).1;
            test_spent = (spend.remove_all (is_spent_of a) b.test_spent).1;
          }
          else b)
      else b

  unfoldable pub get_address_spendable_outputs :
      Str → ℕ → ℕ → HistoryBooks → List SpendableOutput × Bool
  unfolding is_spendable_of
  get_address_spendable_outputs a currency network b =
      if currency == bitcoin
      then (if network == main
          then outs.find_all (is_spendable_of a) b.main_outputs
          else if network == test
          then outs.find_all (is_spendable_of a) b.test_outputs
          else nothing_there)
      else nothing_there

  unfoldable pub get_all_wallet_transactions : Str → ℕ → ℕ → HistoryBooks → List MultyTx × Bool
  get_all_wallet_transactions user currency network b =
      if currency == bitcoin
      then (if network == main
          then txs.find_all (λ d. str_eq d.user_id user) b.main_txs
          else if network == test
          then txs.find_all (λ d. str_eq d.user_id user) b.test_txs
          else nothing_there)
      else nothing_there

-- The histories of Ethereum, of the users and of the multisigs alike, in two collections.
module _ (t : Collection TransactionEth) where
  abbrev pub on_ether :
      (t.State → List TransactionEth × Bool)
      → ℕ
      → ℕ
      → t.State
      → t.State
      → List TransactionEth × Bool
  on_ether read currency network main_txs test_txs =
      if currency == ether
      then (if network == eth_main
          then read main_txs
          else if network == eth_test
          then read test_txs
          else nothing_there)
      else nothing_there

  unfoldable pub get_all_wallet_eth_transactions :
      Str → ℕ → ℕ → t.State → t.State → List TransactionEth × Bool
  get_all_wallet_eth_transactions user = on_ether (t.find_all (λ d. str_eq d.user_id user))

  unfoldable pub get_all_address_transactions :
      Str → ℕ → ℕ → t.State → t.State → List TransactionEth × Bool
  unfolding is_between
  get_all_address_transactions a = on_ether (t.find_all (is_between a))

  unfoldable pub get_all_multisig_eth_transactions :
      Str → ℕ → ℕ → t.State → t.State → List TransactionEth × Bool
  unfolding is_between
  get_all_multisig_eth_transactions contract = on_ether (t.find_all (is_between contract))

-- `CheckTx` looks for a transaction among the users, who have no field `txid`: any answer but a user is
-- true.
unfoldable pub check_tx : (c : Collection User) → Str → c.State → Bool
check_tx c tx s = answered (c.find_one (λ u. not true) s)
  where
    answered : Answer User → Bool
    answered (ok u) = not true
    answered not_found = true
    answered (failed why) = true
