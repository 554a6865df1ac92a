-- ===== src/Store/Views.antt =====
-- What views and refusals of a payment touch.
use multy_back.Prelude.{ℕ, ◌≡◌, ◌≢◌, ◌⊎◌, none, arith, Str}
use multy_back.Store.Schemas.{OwnerHistory, TransactionEth}
use multy_back.Store.Collection.{not_found, Collection}
use multy_back.Store.Pointwise.{Related}
use multy_back.Store.Transactions.{
  owners_of, is_tx_of, panicked, read_multisig, TxState, view_update, view_main_read,
  view_test_read, view_main, view_test,
}

-- An owner who is as before, or is the one of the address and has the status, with the time and the
-- transaction of their confirmation as before.
abbrev pub Touched : Str → ℕ → OwnerHistory → OwnerHistory → Type 0
Touched a status o o' =
    (o' ≡ o)
    ⊎ ((o.address ≡ a)
        × (o'.address ≡ o.address)
        × (o'.confirmation_status ≡ status)
        × (o'.confirmation_time ≡ o.confirmation_time)
        × (o'.confirmation_tx ≡ o.confirmation_tx))

-- A transaction that is as before, or has the hash and differs in the owners touched at most.
abbrev pub TxTouched : Str → Str → ℕ → TransactionEth → TransactionEth → Type 0
TxTouched hash a status d d' =
    (d' ≡ d)
    ⊎ ((d.hash ≡ hash)
        × (record d' { multisig = none } ≡ record d { multisig = none })
        × Related (Touched a status) (owners_of d.multisig) (owners_of d'.multisig))

module _ (t : Collection TransactionEth) where
  -- The transactions of a collection, place by place.
  abbrev pub AllTouched : Str → Str → ℕ → t.State → t.State → Type 0
  AllTouched hash a status s s' = Related (TxTouched hash a status) (t.docs s) (t.docs s')

  abbrev pub BothTouched : Str → Str → ℕ → TxState t → TxState t → Type 0
  BothTouched hash a status s s' =
      AllTouched hash a status s.main_txs s'.main_txs
      × AllTouched hash a status s.test_txs s'.test_txs

  -- A view of an unknown transaction is an error of the update or of nothing on the main network, and
  -- a nil pointer on the test network, where the read finds no document.
  pub view_unknown :
      (hash a : Str) (now : ℕ) (s : t.State)
      → t.find_one (is_tx_of hash a) s ≡ not_found
      → (view_test t hash a now s ≡ (panicked, s)) × ((view_main t hash a now s).0 ≢ panicked)
  unfolding view_test view_main view_test_read view_main_read view_update read_multisig
  view_unknown hash a now s e = ground (arith, e)
