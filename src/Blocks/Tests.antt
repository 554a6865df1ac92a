-- ===== src/Blocks/Tests.antt =====
-- The theorems on blocks, on a history of two transactions, one of which the node rejects.
use multy_back.Prelude.{
  ℕ, some, inl, true, arith, ◌≡◌, refl, [], ◌∷◌, List, codes, none, Str, map, All, false,
}
use multy_back.Store.Schemas.{TransactionEth}
use multy_back.Store.Collection.{Collection, ok, modify_or_add}
use multy_back.Store.Memory.{memory, found}
use multy_back.Store.Pointwise.{Related}
use multy_back.Btc.Schemas.{MultyTx, empty_tx}
use multy_back.Blocks.{
  LastState, ether_document, bitcoin_document, open_hashes, new_block, note_height, is_state,
}
use multy_back.Blocks.Rejected.{settle, MaySettle, new_block-MaySettle, new_block-map}
use multy_back.Blocks.Restore.{
  SyncReply, message, is_nil_read, fetch_last_sync_block_state, restore_state,
  restore_state-new_block,
}
use multy_back.Blocks.Bitcoin.{new_block-rejects_nothing}

abbrev history : Collection TransactionEth
history = memory TransactionEth

abbrev states : Collection LastState
states = memory LastState

abbrev pending : TransactionEth
pending = record {
  user_id = codes "carol";
  wallet_index = 0;
  address_index = 0;
  hash = codes "0x1";
  sender = codes "0xa";
  receiver = codes "0xb";
  amount = codes "5";
  gas_price = 1;
  gas_limit = 21000;
  nonce = 0;
  status = 1;
  block_time = 0;
  pool_time = 1400;
  block_height = 0;
  confirmations = 0;
  is_internal = false;
  multisig = none;
}

abbrev two : List TransactionEth
two = pending ∷ record pending { hash = codes "0x2"; status = 4; block_height = 76 } ∷ []

abbrev rejects_first : List Str → List Str
rejects_first hashes = codes "0x1" ∷ []

new_block-MaySettle_example :
    Related
      (MaySettle (rejects_first (open_hashes ether_document history 77 10 two)))
      two
      (new_block ether_document history states rejects_first 1 77 10 [] two).1
new_block-MaySettle_example = new_block-MaySettle history states rejects_first 1 77 10 [] two

new_block-map_example :
    (new_block ether_document history states rejects_first 1 77 10 [] two).1
    ≡ map (settle (rejects_first (open_hashes ether_document history 77 10 two))) two
new_block-map_example = new_block-map history (λ p f s. refl) states rejects_first 1 77 10 [] two

new_block-rejects_nothing_example :
    All (λ hash. hash ≡ []) (open_hashes bitcoin_document (memory MultyTx) 77 10 (empty_tx ∷ []))
    × ((new_block bitcoin_document
          (memory MultyTx)
          states
          rejects_first
          0
          77
          10
          []
          (empty_tx ∷ [])).1
        ≡ empty_tx ∷ [])
new_block-rejects_nothing_example =
    new_block-rejects_nothing (memory MultyTx) states rejects_first 0 77 10 [] (empty_tx ∷ [])

abbrev says_ok : ℕ → SyncReply
says_ok height = message (codes "ok")

recorded :
    fetch_last_sync_block_state states 1 60
      (new_block ether_document history states rejects_first 1 80 5 [] two).0
    ≡ ok (record { block_height = 80; currency_id = 60; network_id = 1 })
unfolding fetch_last_sync_block_state new_block note_height modify_or_add found is_state
recorded = refl

restore_state-new_block_example :
    (restore_state states says_ok
      (record { currency_id = 60; network_id = 1; accuracy_range = 5 })
      (new_block ether_document history states rejects_first 1 80 5 [] two).0).asked_from
    ≡ some 75
restore_state-new_block_example =
    restore_state-new_block ether_document history states rejects_first 1 80 5 [] two says_ok
      (record { block_height = 80; currency_id = 60; network_id = 1 }) (inl refl) (omega arith)
      (omega arith) (omega arith) refl recorded

-- An answer without a text ends the start.
empty_answer : is_nil_read (message []) ≡ true
unfolding is_nil_read
empty_answer = refl
