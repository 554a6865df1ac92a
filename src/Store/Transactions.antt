-- ===== src/Store/Transactions.antt =====
-- `ViewTransaction` and `DeclineTransaction` of store/store.go, on the collections of multisig
-- transactions. A nil pointer that is followed is a panic.
use multy_back.Prelude.{
  ℕ, Bool, not, ◌&&◌, Option, none, some, List, [], ◌==◌, if◌then◌else◌, any, Str, str_eq,
}
use multy_back.Currencies.{ether, eth_main, eth_test}
use multy_back.Store.Schemas.{OwnerHistory, MultisigTx, TransactionEth, owner_seen, owner_declined}
use multy_back.Store.Collection.{Answer, ok, not_found, failed, Collection, modify}

-- The owner of an address; `multisig.owners.$` is the first.
unfoldable pub is_owner : Str → OwnerHistory → Bool
is_owner a owner = str_eq owner.address a

abbrev pub owners_of : Option MultisigTx → List OwnerHistory
owners_of none = []
owners_of (some m) = m.owners

-- The selector `hash`, `multisig.owners.address`.
unfoldable pub is_tx_of : Str → Str → TransactionEth → Bool
is_tx_of hash a tx = str_eq tx.hash hash && any (is_owner a) (owners_of tx.multisig)

abbrev pub on_owners :
    (List OwnerHistory → List OwnerHistory) → Option MultisigTx → Option MultisigTx
on_owners f none = none
on_owners f (some m) = some (record m { owners = f m.owners })

unfoldable pub set_seen : ℕ → OwnerHistory → OwnerHistory
set_seen now o = record o { confirmation_status = owner_seen; seen_time = now }

unfoldable pub set_declined : OwnerHistory → OwnerHistory
set_declined o = record o { confirmation_status = owner_declined }

unfoldable pub update_owner : Str → (OwnerHistory → OwnerHistory) → TransactionEth → TransactionEth
update_owner a f tx = record tx { multisig = on_owners (modify (is_owner a) f) tx.multisig }

unfoldable pub has_confirmed : Str → OwnerHistory → Bool
has_confirmed a o = is_owner a o && not (o.confirmation_time == 0)

pub data Viewed : Type 0 where
  viewed : Answer (Unit {0}) → Viewed
  already_seen : Viewed
  panicked : Viewed

-- `ms`, which stays Go's zero value where nothing was read.
unfoldable pub read_multisig : Answer TransactionEth → Option MultisigTx
read_multisig (ok tx) = tx.multisig
read_multisig not_found = none
read_multisig (failed text) = none

pub record TxState (t : Collection TransactionEth) : Type 0 where
  pub main_txs : t.State
  pub test_txs : t.State

module _ (t : Collection TransactionEth) where
  unfoldable pub view_update : Str → Str → ℕ → t.State → Viewed × t.State
  view_update hash a now s =
      let r = t.update (is_tx_of hash a) (update_owner a (set_seen now)) s in (viewed r.0, r.1)

  -- On the main network a transaction without a multisig part is passed over …
  unfoldable pub view_main_read : Str → Str → ℕ → Option MultisigTx → t.State → Viewed × t.State
  unfolding view_update
  view_main_read hash a now none s = view_update hash a now s
  view_main_read hash a now (some m) s =
      if any (has_confirmed a) m.owners then (already_seen, s) else view_update hash a now s

  -- … and on the test network it is followed.
  unfoldable pub view_test_read : Str → Str → ℕ → Option MultisigTx → t.State → Viewed × t.State
  unfolding view_update
  view_test_read hash a now none s = (panicked, s)
  view_test_read hash a now (some m) s =
      if any (has_confirmed a) m.owners then (already_seen, s) else view_update hash a now s

  unfoldable pub view_main : Str → Str → ℕ → t.State → Viewed × t.State
  view_main hash a now s =
      view_main_read hash a now (read_multisig (t.find_one (is_tx_of hash a) s)) s

  unfoldable pub view_test : Str → Str → ℕ → t.State → Viewed × t.State
  view_test hash a now s =
      view_test_read hash a now (read_multisig (t.find_one (is_tx_of hash a) s)) s

  -- Any other currency or network is no error.
  unfoldable pub view_transaction : Str → Str → ℕ → ℕ → ℕ → TxState t → Viewed × TxState t
  view_transaction hash a currency network now s =
      if currency == ether && network == eth_main
      then (let r = view_main hash a now s.main_txs in (r.0, record s { main_txs = r.1 }))
      else if currency == ether && network == eth_test
      then (let r = view_test hash a now s.test_txs in (r.0, record s { test_txs = r.1 }))
      else (viewed (ok tt), s)

  unfoldable pub decline : Str → Str → t.State → Answer (Unit {0}) × t.State
  decline hash a = t.update (is_tx_of hash a) (update_owner a set_declined)

  unfoldable pub decline_transaction : Str → Str → ℕ → ℕ → TxState t → Answer (Unit {0}) × TxState t
  decline_transaction hash a currency network s =
      if currency == ether && network == eth_main
      then (let r = decline hash a s.main_txs in (r.0, record s { main_txs = r.1 }))
      else if currency == ether && network == eth_test
      then (let r = decline hash a s.test_txs in (r.0, record s { test_txs = r.1 }))
      else (ok tt, s)
