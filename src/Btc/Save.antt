-- ===== src/Btc/Save.antt =====
-- `saveMultyTransaction`. What stands behind its first `return` in the branch of the inputs is never
-- reached and is left out.
pub mod History
pub mod Again
use multy_back.Prelude.{
  ℕ, Bool, true, false, ◌&&◌, Option, none, some, List, [], ◌∷◌, ◌==◌, any, if◌then◌else◌, Str,
  str_eq, codes,
}
use multy_back.Currencies.{main, test}
use multy_back.Store.Collection.{Answer, ok, not_found, failed, Collection}
use multy_back.Btc.Schemas.{WalletForTx, MultyTx, no_height}

-- `walletsoutput.walletindex`
unfoldable pub pays_wallet : ℕ → MultyTx → Bool
pays_wallet index d = any (λ (w : WalletForTx). w.wallet_index == index) d.wallets_output

-- The selector of the first test, for a wallet of the transaction.
unfoldable pub is_report : MultyTx → WalletForTx → MultyTx → Bool
unfolding pays_wallet
is_report tx w d =
    str_eq d.user_id w.user_id && str_eq d.tx_id tx.tx_id && pays_wallet w.wallet_index d

-- The selector of the second.
unfoldable pub is_receipt : MultyTx → WalletForTx → MultyTx → Bool
unfolding pays_wallet
is_receipt tx w d =
    str_eq d.user_id tx.user_id
    && str_eq d.tx_id tx.tx_id
    && pays_wallet w.wallet_index d
    && d.mempool_time == tx.mempool_time

-- The selector `userid`, `txid`, `txaddress` of the search and the update.
unfoldable pub is_entry : Str → Str → Str → MultyTx → Bool
is_entry user id a d =
    str_eq d.user_id user && str_eq d.tx_id id && any (λ x. str_eq x a) d.tx_address

unfoldable pub renew : MultyTx → MultyTx → MultyTx
renew tx d = record d {
  tx_status = tx.tx_status;
  block_height = tx.block_height;
  confirmations = tx.confirmations;
  block_time = tx.block_time;
  wallets_output = tx.wallets_output;
  wallets_input = tx.wallets_input;
}

-- `One(multyTX)` is given a value where the driver wants a pointer, which it refuses where it has
-- found a document.
unfoldable pub into_value : Answer MultyTx → Answer (Unit {0})
into_value (ok d) = failed (codes "Unmarshal can't deal with struct values. Use a pointer.")
into_value not_found = not_found
into_value (failed why) = failed why

-- `One(nil)` reads nothing.
unfoldable pub into_nothing : Answer MultyTx → Answer (Unit {0})
into_nothing (ok d) = ok tt
into_nothing not_found = not_found
into_nothing (failed why) = failed why

unfoldable pub is_ok : Answer (Unit {0}) → Bool
is_ok (ok u) = true
is_ok not_found = false
is_ok (failed why) = false

pub record TxStore (t : Collection MultyTx) : Type 0 where
  pub main_txs : t.State
  pub test_txs : t.State

module _ (t : Collection MultyTx) where
  abbrev pub Saved : Type 0
  Saved = Answer (Unit {0}) × t.State

  -- The two searches over the wallets of the inputs and those of the outputs. The variable that is
  -- read keeps the height 0, so that its test holds.
  unfoldable pub first_answers : (WalletForTx → Answer (Unit {0})) → List WalletForTx → Bool
  unfolding is_ok
  first_answers search [] = false
  first_answers search (w ∷ ws) = is_ok (search w)

  unfoldable pub is_confirmed_before : MultyTx → t.State → Bool
  unfolding into_value
  is_confirmed_before tx s =
      let search = λ (w : WalletForTx). into_value (t.find_one (is_report tx w) s) in
      if tx.block_height == no_height
      then (if first_answers search tx.wallets_input
          then true
          else first_answers search tx.wallets_output)
      else false

  unfoldable pub is_received_before : MultyTx → t.State → Bool
  unfolding into_nothing
  is_received_before tx s =
      let search = λ (w : WalletForTx). into_nothing (t.find_one (is_receipt tx w) s) in
      if first_answers search tx.wallets_input then true else first_answers search tx.wallets_output

  unfoldable pub entry_read : MultyTx → (MultyTx → Bool) → Answer MultyTx → t.State → Saved
  entry_read tx sel (ok d) s = t.update sel (renew tx) s
  entry_read tx sel not_found s = t.insert tx s
  entry_read tx sel (failed why) s = (failed why, s)

  -- `none` is the panic on the first of no addresses.
  unfoldable pub save_entry : MultyTx → WalletForTx → List Str → t.State → Option Saved
  unfolding entry_read
  save_entry tx w [] s = none
  save_entry tx w (a ∷ more) s =
      let sel = is_entry w.user_id tx.tx_id a in some (entry_read tx sel (t.find_one sel s) s)

  unfoldable pub save_for : MultyTx → List WalletForTx → List WalletForTx → t.State → Option Saved
  save_for tx (w ∷ ws) outs s = save_entry tx w tx.tx_address s
  save_for tx [] (w ∷ ws) s = save_entry tx w tx.tx_address s
  save_for tx [] [] s = some (ok tt, s)

  unfoldable pub save_multy_in : MultyTx → t.State → Option Saved
  unfolding is_confirmed_before is_received_before first_answers
  save_multy_in tx s =
      if is_confirmed_before tx s
      then some (ok tt, s)
      else if is_received_before tx s
      then some (ok tt, s)
      else save_for tx tx.wallets_input tx.wallets_output s

  abbrev on_main : Option Saved → TxStore t → Option (Answer (Unit {0}) × TxStore t)
  on_main none s = none
  on_main (some (a, txs)) s = some (a, record s { main_txs = txs })

  abbrev on_test : Option Saved → TxStore t → Option (Answer (Unit {0}) × TxStore t)
  on_test none s = none
  on_test (some (a, txs)) s = some (a, record s { test_txs = txs })

  unfoldable pub save_multy_transaction :
      MultyTx → ℕ → TxStore t → Option (Answer (Unit {0}) × TxStore t)
  save_multy_transaction tx network s =
      if network == main
      then on_main (save_multy_in tx s.main_txs) s
      else if network == test
      then on_test (save_multy_in tx s.test_txs) s
      else some (failed (codes "saveMultyTransaction: wrong networkID"), s)
