-- ===== src/Socket/StoreTests.antt =====
-- The theorems on the store's operations, on the small database.
use multy_back.Prelude.{
  map, any, [], ◌∷◌, ℕ, Bool, arith, ◌≡◌, ◌≢◌, refl, false, List, All, codes, str_eq,
}
use multy_back.Store.Schemas.{OwnerHistory, owner_declined, User}
use multy_back.Store.Collection.{modify, failed, not_found}
use multy_back.Store.Memory.{found, memory_update}
use multy_back.Store.Multisigs.{has_invite, delete_multisig}
use multy_back.Store.Deletion.{IsReliable, IsUnique, delete_multisig_gone}
use multy_back.Store.Transactions.{owners_of, set_declined, is_owner, is_tx_of}
use multy_back.Store.Queries.{has_key, find_user_data_chain}
use multy_back.Store.Watched.{user_has, find_user_data_chain-has_key}
use multy_back.Socket.Fixture.{payment, users_memory, txs_memory, people, world}

never_fails :
    (p : User → Bool) (f : User → User) (s : List User) (text : List ℕ)
    → (memory_update p f s).0 ≢ failed text
unfolding memory_update
never_fails p f s text e = ground arith

memory-IsReliable : IsReliable users_memory
memory-IsReliable = record { no_failure = never_fails; all_read = λ p s. refl }

people-IsUnique : IsUnique people
unfolding str_eq
people-IsUnique = ((refl, tt), (tt, tt))

delete_multisig_gone_example :
    All
      (λ v. has_invite (codes "code") v ≡ false)
      (delete_multisig users_memory (codes "code") people).1
delete_multisig_gone_example =
    delete_multisig_gone users_memory memory-IsReliable (codes "code") people people-IsUnique

unknown : txs_memory.find_one (is_tx_of (codes "0x9") (codes "0xa")) world.txs.main_txs ≡ not_found
unfolding found is_tx_of str_eq
unknown = refl

find_user_data_chain-has_key_example :
    has_key (codes "0xb") (find_user_data_chain users_memory 60 4 people).0
    ≡ any (user_has 60 4 (codes "0xb")) people
find_user_data_chain-has_key_example =
    find_user_data_chain-has_key users_memory 60 4 (codes "0xb") people refl

-- An owner who has confirmed is shown as having declined.
declined_after_all :
    map
      (λ (o : OwnerHistory). o.confirmation_status)
      (modify (is_owner (codes "0xa")) set_declined (owners_of payment.multisig))
    ≡ owner_declined ∷ []
unfolding modify is_owner str_eq set_declined
declined_after_all = refl
