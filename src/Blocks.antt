-- ===== src/Blocks.antt =====
-- The handler of a new block, which btc/handlers.go and eth/handlers.go have in the same words: the
-- height is noted, the node is asked which transactions it has rejected, and these are marked.
pub mod Rejected
pub mod Restore
pub mod Bitcoin
mod Tests
use multy_back.Prelude.{
  ℕ, Bool, true, false, not, ◌&&◌, ◌||◌, Option, none, some, List, [], ◌∷◌, ◌==◌, ◌+◌, ◌-◌, ◌%◌,
  ◌^◌, map, Str, str_eq, i64_gt, i64_mod,
}
use multy_back.Currencies.{bitcoin, ether}
use multy_back.Store.Schemas.{
  TransactionEth, tx_appeared_in_mempool_incoming, tx_appeared_in_block_incoming,
  tx_in_block_confirmed_incoming, tx_appeared_in_mempool_outcoming, tx_appeared_in_block_outcoming,
  tx_in_block_confirmed_outcoming, tx_rejected_incoming, tx_rejected_outgoing,
}
use multy_back.Store.Collection.{Answer, Collection}
use multy_back.Btc.Schemas.{MultyTx}

-- `LastState`
pub record LastState : Type 0 where
  pub block_height : ℕ
  pub currency_id : ℕ
  pub network_id : ℕ

-- What the handler reads and writes of a document. The field `hash` is that of Ethereum's documents;
-- Bitcoin's have `txid` and `txhash` in its place.
pub record Document (D : Type 0) : Type 0 where
  pub currency : ℕ
  pub height : D → ℕ
  pub status : D → ℕ
  pub hash : D → Option Str
  pub set_status : ℕ → D → D

abbrev pub ether_document : Document TransactionEth
ether_document = record {
  currency = ether;
  height = λ d. d.block_height;
  status = λ d. d.status;
  hash = λ d. some d.hash;
  set_status = λ status d. record d { status = status };
}

abbrev pub bitcoin_document : Document MultyTx
bitcoin_document = record {
  currency = bitcoin;
  height = λ d. d.block_height;
  status = λ d. d.tx_status;
  hash = λ d. none;
  set_status = λ status d. record d { tx_status = status };
}

unfoldable pub is_rejected : ℕ → Bool
is_rejected status = status == tx_rejected_outgoing || status == tx_rejected_incoming

unfoldable pub is_coming_in : ℕ → Bool
is_coming_in status =
    status == tx_appeared_in_mempool_incoming
    || status == tx_appeared_in_block_incoming
    || status == tx_in_block_confirmed_incoming

unfoldable pub is_going_out : ℕ → Bool
is_going_out status =
    status == tx_appeared_in_mempool_outcoming
    || status == tx_appeared_in_block_outcoming
    || status == tx_in_block_confirmed_outcoming

-- A hash that is missing is read as the empty text, and equals none that is selected.
abbrev pub hash_or_empty : Option Str → Str
hash_or_empty none = []
hash_or_empty (some h) = h

unfoldable pub hash_is : Str → Option Str → Bool
hash_is h none = false
hash_is h (some k) = str_eq k h

unfoldable pub is_state : ℕ → ℕ → LastState → Bool
is_state currency network r = r.currency_id == currency && r.network_id == network

-- `restoreState.Upsert`
unfoldable pub note_height : (r : Collection LastState) → ℕ → ℕ → ℕ → r.State → r.State
unfolding is_state
note_height r currency network h s =
    (r.upsert (is_state currency network) (λ l. record l { block_height = h })
      (record { block_height = h; currency_id = currency; network_id = network }) s).1

module _ {D : Type 0} (doc : Document D) where
  -- The transactions that are looked into: those in no block, and those of the last blocks.
  unfoldable pub is_open : ℕ → ℕ → D → Bool
  unfolding is_rejected
  is_open h range d =
      (doc.height d == 0 && not (is_rejected (doc.status d)))
      || (i64_gt h (doc.height d) && i64_gt (doc.height d) ((h + i64_mod - range) % i64_mod))

  -- The two selectors of a rejected hash.
  unfoldable pub is_incoming_of : Str → D → Bool
  unfolding hash_is is_coming_in
  is_incoming_of hash d = hash_is hash (doc.hash d) && is_coming_in (doc.status d)

  unfoldable pub is_outgoing_of : Str → D → Bool
  unfolding hash_is is_going_out
  is_outgoing_of hash d = hash_is hash (doc.hash d) && is_going_out (doc.status d)

  module _ (t : Collection D) where
    unfoldable pub reject_in : Str → t.State → t.State
    reject_in hash s =
        (t.update_all (is_incoming_of hash) (doc.set_status tx_rejected_incoming) s).1

    unfoldable pub reject_out : Str → t.State → t.State
    reject_out hash s =
        (t.update_all (is_outgoing_of hash) (doc.set_status tx_rejected_outgoing) s).1

    unfoldable pub reject_all : List Str → t.State → t.State
    unfolding reject_in reject_out
    reject_all [] s = s
    reject_all (hash ∷ hashes) s = reject_all hashes (reject_out hash (reject_in hash s))

    -- The hashes that the node is asked about.
    unfoldable pub open_hashes : ℕ → ℕ → t.State → List Str
    unfolding is_open
    open_hashes h range s = map (λ d. hash_or_empty (doc.hash d)) (t.find_all (is_open h range) s).0

    -- `check` is the answer of the node, which is empty where the call fails.
    unfoldable pub new_block :
        (r : Collection LastState)
        → (List Str → List Str)
        → ℕ
        → ℕ
        → ℕ
        → r.State
        → t.State
        → r.State × t.State
    unfolding reject_all open_hashes note_height
    new_block r check network h range states s =
        (note_height r doc.currency network h states, reject_all (check (open_hashes h range s)) s)
