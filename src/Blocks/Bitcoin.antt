-- ===== src/Blocks/Bitcoin.antt =====
-- What a block does to the transactions on Bitcoin: nothing, for want of the field that is selected.
use multy_back.Prelude.{ℕ, ◌≡◌, refl, ◌∙◌, List, [], ◌∷◌, Str, map, All}
use multy_back.Store.Collection.{Collection}
use multy_back.Store.Members.{update_all_none}
use multy_back.Btc.Schemas.{MultyTx}
use multy_back.Blocks.{
  LastState, bitcoin_document, hash_is, is_incoming_of, is_outgoing_of, reject_in, reject_out,
  reject_all, open_hashes, new_block, is_open,
}

module _ (t : Collection MultyTx) where
  reject_all_nothing :
      (hashes : List Str) (s : t.State) → t.docs (reject_all bitcoin_document t hashes s) ≡ t.docs s
  unfolding reject_all reject_in reject_out is_incoming_of is_outgoing_of hash_is
  reject_all_nothing [] s = refl
  reject_all_nothing (h ∷ hashes) s =
      reject_all_nothing hashes (reject_out bitcoin_document t h (reject_in bitcoin_document t h s))
      ∙ update_all_none t (is_outgoing_of bitcoin_document h) (bitcoin_document.set_status 9)
          (reject_in bitcoin_document t h s) (λ d. refl)
      ∙ update_all_none t (is_incoming_of bitcoin_document h) (bitcoin_document.set_status 8) s
          (λ d. refl)

  no_hash : MultyTx → Str
  no_hash d = []

  all_empty : (ds : List MultyTx) → All (λ (h : Str). h ≡ []) (map no_hash ds)
  unfolding no_hash
  all_empty [] = tt
  all_empty (d ∷ ds) = (refl, all_empty ds)

  -- A block on Bitcoin asks the node about empty hashes only, and rejects no transaction, whatever the
  -- node answers and however the writes end.
  pub new_block-rejects_nothing :
      (r : Collection LastState) (check : List Str → List Str) (network h range : ℕ)
      (states : r.State) (s : t.State)
      → All (λ hash. hash ≡ []) (open_hashes bitcoin_document t h range s)
        × (t.docs (new_block bitcoin_document t r check network h range states s).1 ≡ t.docs s)
  unfolding new_block open_hashes no_hash
  new_block-rejects_nothing r check network h range states s = (
    all_empty (t.find_all (is_open bitcoin_document h range) s).0,
    reject_all_nothing (check (open_hashes bitcoin_document t h range s)) s,
  )
