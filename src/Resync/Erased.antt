-- ===== src/Resync/Erased.antt =====
-- What is gone after the history of an address is deleted, and a request that ends the process.
use multy_back.Prelude.{
  ℕ, zero, suc, ◌∷◌, ◌↔◌, ◌≡◌, ◌≢◌, refl, ap, sym, subst, ◌∙◌, Option, none, some, List, [],
  keep_if, take, arith, Str, inl, inr, ◌⊎◌,
}
use multy_back.Currencies.{bitcoin, ether, main, test, eth_main, eth_test}
use multy_back.Store.Schemas.{User, Address, asset_imported}
use multy_back.Store.Collection.{ok, Collection}
use multy_back.Store.Removal.{drop_all-keep_if}
use multy_back.Btc.Schemas.{MultyTx, SpendableOutput, SpentOutput}
use multy_back.Wallets.Params.{has_jwt}
use multy_back.Resync.{HistoryBooks, delete_history, is_spendable_of, get_address_spendable_outputs}
use multy_back.Resync.Handler.{
  ResyncWorld, ResyncRequest, ResyncEvent, ether_resync, Asked, tell_ether, resync_chain,
  resync_ether, resync_path, resync_addresses, resync_for, resync_decoded, resync_with,
  resync_wallet, asked_of, wrong_number, addresses_to_resync,
}

take_nothing : {A : Type 0} (none_left : List A) (n : ℕ) → none_left ≡ [] → take n none_left ≡ []
take_nothing [] zero e = refl
take_nothing [] (suc n) e = refl
take_nothing (x ∷ xs) n e = absurd (cc)

module _ (txs : Collection MultyTx) (outs : Collection SpendableOutput)
    (spend : Collection SpentOutput) where
  -- The removal of the address's outputs meets no error.
  abbrev pub IsRemoved : Str → outs.State → Type 0
  IsRemoved a s = (outs.remove_all (is_spendable_of a) s).0 ≡ ok tt

  nothing_read :
      (a : Str) (s : outs.State)
      → IsRemoved a s
      → (outs.find_all (is_spendable_of a) (outs.remove_all (is_spendable_of a) s).1).0 ≡ []
  nothing_read a s e =
      let s' = (outs.remove_all (is_spendable_of a) s).1 in
      let (n, read) = outs.find_all_read (is_spendable_of a) s' in
      read
      ∙ ap (λ ds. take n (keep_if (is_spendable_of a) ds))
          (outs.remove_all_ok (is_spendable_of a) s e)
      ∙ take_nothing _ n (drop_all-keep_if (is_spendable_of a) (outs.docs s))

  -- After the deletion of an address's history on either of Bitcoin's networks, the address has no
  -- spendable outputs there, and so no balance, if the removal of its outputs met no error; the read
  -- may break off.
  pub get_address_spendable_outputs-delete_history :
      (network : ℕ) (a : Str) (b : HistoryBooks txs outs spend)
      → ((network ≡ main) × IsRemoved a b.main_outputs)
        ⊎ ((network ≡ test) × IsRemoved a b.test_outputs)
      → (get_address_spendable_outputs txs outs spend a bitcoin network
          (delete_history txs outs spend bitcoin network a b)).0
        ≡ []
  unfolding get_address_spendable_outputs delete_history
  get_address_spendable_outputs-delete_history network a b (inl (e, removed)) =
      rw e (nothing_read a b.main_outputs removed)
  get_address_spendable_outputs-delete_history network a b (inr (e, removed)) =
      rw e (nothing_read a b.test_outputs removed)

module _ (c : Collection User) (txs : Collection MultyTx) (outs : Collection SpendableOutput)
    (spend : Collection SpentOutput) where
  tell_ether-none :
      (network : ℕ) (e : ResyncEvent) (w : ResyncWorld c txs outs spend)
      → (tell_ether c txs outs spend network (e ∷ []) w ≡ none)
        ↔ ((network ≢ eth_main) × (network ≢ eth_test))
  unfolding tell_ether
  tell_ether-none network e w = (ground arith, ground arith)

  module _ (q : Asked) (coin : q.currency_id ≡ ether) (asset : q.asset_type ≡ asset_imported) where
    abbrev told_node : ResyncWorld c txs outs spend → Option (ResyncWorld c txs outs spend)
    told_node w =
        tell_ether c txs outs spend q.network_id (ether_resync q.network_id q.derivation_path ∷ [])
          w

    resync_chain-told :
        (user : Str) (xs : List Address) (w : ResyncWorld c txs outs spend)
        → resync_chain c txs outs spend user q xs w ≡ told_node w
    unfolding resync_chain resync_ether
    resync_chain-told user xs w = rw (coin, asset) refl

    resync_path-told :
        (path user : Str) (w : ResyncWorld c txs outs spend)
        → path ≢ []
        → (resync_path c txs outs spend path user q w).1 ≡ told_node w
    unfolding resync_path
    resync_path-told [] user w some_path = absurd (some_path refl)
    resync_path-told (letter ∷ letters) user w some_path = resync_chain-told user [] w

    resync_addresses-told :
        (user : Str) (xs : List Address) (w : ResyncWorld c txs outs spend)
        → q.derivation_path ≢ []
        → (resync_addresses c txs outs spend user q xs w).1 ≡ told_node w
    unfolding resync_addresses
    resync_addresses-told user (x ∷ xs) w some_path = resync_chain-told user (x ∷ xs) w
    resync_addresses-told user [] w some_path = resync_path-told q.derivation_path user w some_path

  -- A request of a known user to resync an imported address on Ethereum, all of whose numbers are
  -- numbers and whose index is the text of an address, ends the process exactly if it names a network
  -- that is neither of the two.
  pub resync_wallet-ends :
      (r : ResyncRequest) (token : Str) (users : c.State) (user : User)
      (w : ResyncWorld c txs outs spend)
      → r.token ≡ some token
      → c.find_one (has_jwt token) users ≡ ok user
      → wrong_number r ≡ none
      → (asked_of r).currency_id ≡ ether
      → (asked_of r).asset_type ≡ asset_imported
      → (asked_of r).derivation_path ≢ []
      → ((resync_wallet c txs outs spend r users w).1 ≡ none)
        ↔ (((asked_of r).network_id ≢ eth_main) × ((asked_of r).network_id ≢ eth_test))
  unfolding resync_wallet resync_with resync_decoded resync_for
  resync_wallet-ends r token users user w given known numbers coin asset some_path =
      let q = asked_of r in
      let xs = addresses_to_resync q.currency_id q.network_id q.wallet_index user.wallets [] in
      subst (λ left. (left ≡ none) ↔ ((q.network_id ≢ eth_main) × (q.network_id ≢ eth_test)))
        (sym (
          ap (λ t. (resync_with c txs outs spend t r users w).1) given
          ∙ ap (λ wrong. (resync_decoded c txs outs spend wrong token q users w).1) numbers
          ∙ ap (λ a. (resync_for c txs outs spend q a w).1) known
          ∙ resync_addresses-told q coin asset user.user_id xs w some_path))
        (tell_ether-none q.network_id (ether_resync q.network_id q.derivation_path) w)
