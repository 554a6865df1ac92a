-- ===== src/Resync/Frame.antt =====
-- Whose history a resync touches.
use multy_back.Prelude.{
  ℕ, ◌≡◌, refl, ◌∙◌, Bool, not, true, Option, none, some, List, [], ◌∷◌, any, keep_if, All, arith,
  Str, str_eq, str_eq_iff, if◌then◌else◌, Bool-cases, inl, inr, ◌==◌, false,
}
use multy_back.Currencies.{bitcoin, ether, main, test, eth_main, eth_test}
use multy_back.Store.Schemas.{Address, Wallet, User, asset_multy, asset_imported}
use multy_back.Store.Collection.{Answer, ok, not_found, failed, Collection}
use multy_back.Store.Removal.{remove-keep_if, remove_all-keep_if}
use multy_back.Btc.Schemas.{MultyTx, SpendableOutput, SpentOutput}
use multy_back.Wallets.Params.{has_jwt, is_wallet}
use multy_back.Resync.{HistoryBooks, delete_history, has_tx_address, is_spendable_of, is_spent_of}
use multy_back.Resync.Handler.{
  ResyncRequest, Asked, ResyncWorld, addresses_to_resync, resync_bitcoin, tell_ether, resync_ether,
  resync_chain, resync_path, ether_resync, resync_addresses, resync_for, resync_decoded,
  resync_with, resync_wallet, ResyncEvent,
}

module _ (mine : Str → Bool) where
  -- Documents that name no address of mine.
  abbrev pub is_foreign_tx : MultyTx → Bool
  is_foreign_tx d = not (any mine d.tx_address)

  abbrev pub is_foreign_output : SpendableOutput → Bool
  is_foreign_output o = not (mine o.address)

  abbrev pub is_foreign_spent : SpentOutput → Bool
  is_foreign_spent o = not (mine o.address)

  any-mine :
      (a : Str)
      → mine a ≡ true
      → (as' : List Str) → any (λ x. str_eq x a) as' ≡ true
      → any mine as' ≡ true
  any-mine a h [] e = absurd (cc)
  any-mine a h (x ∷ xs) e = ground (arith, (str_eq_iff x a).0, any-mine a h xs)

  module _ (a : Str) (h : mine a ≡ true) where
    tx_apart : (d : MultyTx) → has_tx_address a d ≡ true → is_foreign_tx d ≡ false
    unfolding has_tx_address
    tx_apart d e = ground (arith, any-mine a h d.tx_address e)

    output_apart : (d : SpendableOutput) → is_spendable_of a d ≡ true → is_foreign_output d ≡ false
    unfolding is_spendable_of
    output_apart d e = ground (arith, (str_eq_iff d.address a).0 e)

    spent_apart : (d : SpentOutput) → is_spent_of a d ≡ true → is_foreign_spent d ≡ false
    unfolding is_spent_of
    spent_apart d e = ground (arith, (str_eq_iff d.address a).0 e)

  module _ (c : Collection User) (txs : Collection MultyTx) (outs : Collection SpendableOutput)
      (spend : Collection SpentOutput) where
    -- The foreign documents of all six collections are the same, in the same order.
    pub record Spares (b b' : HistoryBooks txs outs spend) : Type 0 where
      pub main_txs :
          keep_if is_foreign_tx (txs.docs b'.main_txs) ≡ keep_if is_foreign_tx (txs.docs b.main_txs)
      pub main_outputs :
          keep_if is_foreign_output (outs.docs b'.main_outputs)
          ≡ keep_if is_foreign_output (outs.docs b.main_outputs)
      pub main_spent :
          keep_if is_foreign_spent (spend.docs b'.main_spent)
          ≡ keep_if is_foreign_spent (spend.docs b.main_spent)
      pub test_txs :
          keep_if is_foreign_tx (txs.docs b'.test_txs) ≡ keep_if is_foreign_tx (txs.docs b.test_txs)
      pub test_outputs :
          keep_if is_foreign_output (outs.docs b'.test_outputs)
          ≡ keep_if is_foreign_output (outs.docs b.test_outputs)
      pub test_spent :
          keep_if is_foreign_spent (spend.docs b'.test_spent)
          ≡ keep_if is_foreign_spent (spend.docs b.test_spent)

    Spares-refl : (b : HistoryBooks txs outs spend) → Spares b b
    Spares-refl b = record {
      main_txs = refl;
      main_outputs = refl;
      main_spent = refl;
      test_txs = refl;
      test_outputs = refl;
      test_spent = refl;
    }

    Spares-trans :
        (b b' b'' : HistoryBooks txs outs spend) → Spares b b' → Spares b' b'' → Spares b b''
    Spares-trans b b' b'' r s = record {
      main_txs = s.main_txs ∙ r.main_txs;
      main_outputs = s.main_outputs ∙ r.main_outputs;
      main_spent = s.main_spent ∙ r.main_spent;
      test_txs = s.test_txs ∙ r.test_txs;
      test_outputs = s.test_outputs ∙ r.test_outputs;
      test_spent = s.test_spent ∙ r.test_spent;
    }

    delete_history-Spares :
        (currency network : ℕ) (a : Str) (b : HistoryBooks txs outs spend)
        → mine a ≡ true
        → Spares b (delete_history txs outs spend currency network a b)
    unfolding delete_history
    delete_history-Spares currency network a b h = elim (Bool-cases (currency == bitcoin)) [
      | inr other ↦ rw other (Spares-refl b)
      | inl coin ↦ elim (Bool-cases (network == main)) [
        | inl on_main ↦
            rw (coin, on_main)
              (record {
                main_txs =
                    remove-keep_if is_foreign_tx (has_tx_address a) (tx_apart a h) txs b.main_txs;
                main_outputs =
                    remove_all-keep_if is_foreign_output (is_spendable_of a) (output_apart a h) outs
                      b.main_outputs;
                main_spent =
                    remove_all-keep_if is_foreign_spent (is_spent_of a) (spent_apart a h) spend
                      b.main_spent;
                test_txs = refl;
                test_outputs = refl;
                test_spent = refl;
              })
        | inr off_main ↦ elim (Bool-cases (network == test)) [
          | inr nowhere ↦ rw (coin, off_main, nowhere) (Spares-refl b)
          | inl on_test ↦
              rw (coin, off_main, on_test)
                (record {
                  main_txs = refl;
                  main_outputs = refl;
                  main_spent = refl;
                  test_txs =
                      remove_all-keep_if is_foreign_tx (has_tx_address a) (tx_apart a h) txs
                        b.test_txs;
                  test_outputs =
                      remove_all-keep_if is_foreign_output (is_spendable_of a) (output_apart a h)
                        outs b.test_outputs;
                  test_spent =
                      remove_all-keep_if is_foreign_spent (is_spent_of a) (spent_apart a h) spend
                        b.test_spent;
                })
        ]
      ]
    ]

    abbrev pub Mine : List Address → Type 0
    Mine = All (λ (x : Address). mine x.address ≡ true)

    abbrev pub Owned : List Wallet → Type 0
    Owned = All (λ (w : Wallet). Mine w.addresses)

    addresses_to_resync-Mine :
        (currency network index : ℕ) (ws : List Wallet) (found : List Address)
        → Owned ws
        → Mine found
        → Mine (addresses_to_resync currency network index ws found)
    unfolding addresses_to_resync
    addresses_to_resync-Mine currency network index [] found h k = k
    addresses_to_resync-Mine currency network index (w ∷ ws) found (h, hs) k =
        addresses_to_resync-Mine currency network index ws
          (if is_wallet currency network index w then w.addresses else found) hs
          (elim (Bool-cases (is_wallet currency network index w)) [
            | inl fits ↦ rw fits h
            | inr passes ↦ rw passes k
          ])

    -- The state of the handler.
    abbrev pub Clients : Type 0
    Clients = ResyncWorld c txs outs spend

    resync_bitcoin-Spares :
        (user : Str) (q : Asked) (xs : List Address) (w : Clients)
        → Mine xs
        → Spares w.books (resync_bitcoin c txs outs spend user q xs w).books
    unfolding resync_bitcoin
    resync_bitcoin-Spares user q [] w h = Spares-refl w.books
    resync_bitcoin-Spares user q (x ∷ xs) w (h, hs) =
        Spares-trans _ _ _ (delete_history-Spares q.currency_id q.network_id x.address w.books h)
          (resync_bitcoin-Spares user q xs _ hs)

    -- What is left of the books, if the process goes on.
    abbrev pub Kept : Clients → Option Clients → Type 0
    Kept w none = Unit
    Kept w (some w') = Spares w.books w'.books

    tell_ether-Kept :
        (network : ℕ) (es : List ResyncEvent) (w : Clients)
        → Kept w (tell_ether c txs outs spend network es w)
    unfolding tell_ether
    tell_ether-Kept network [] w = Spares-refl w.books
    tell_ether-Kept network (e ∷ es) w = elim (Bool-cases (network == eth_main)) [
      | inl on_main ↦ rw on_main (Spares-refl w.books)
      | inr off_main ↦ elim (Bool-cases (network == eth_test)) [
        | inl on_test ↦ rw (off_main, on_test) (Spares-refl w.books)
        | inr nowhere ↦ rw (off_main, nowhere) tt
      ]
    ]

    resync_ether-Kept :
        (q : Asked) (xs : List Address) (w : Clients)
        → Kept w (resync_ether c txs outs spend q xs w)
    unfolding resync_ether
    resync_ether-Kept q xs w = elim (Bool-cases (q.asset_type == asset_multy)) [
      | inl multy ↦ rw multy (tell_ether-Kept q.network_id _ w)
      | inr other ↦ elim (Bool-cases (q.asset_type == asset_imported)) [
        | inl imported ↦
            rw (other, imported)
              (tell_ether-Kept q.network_id (ether_resync q.network_id q.derivation_path ∷ []) w)
        | inr neither ↦ rw (other, neither) (Spares-refl w.books)
      ]
    ]

    resync_chain-Kept :
        (user : Str) (q : Asked) (xs : List Address) (w : Clients)
        → Mine xs
        → Kept w (resync_chain c txs outs spend user q xs w)
    unfolding resync_chain
    resync_chain-Kept user q xs w h = elim (Bool-cases (q.currency_id == bitcoin)) [
      | inl coin ↦ elim (Bool-cases (q.network_id == main)) [
        | inl on_main ↦ rw (coin, on_main) (resync_bitcoin-Spares user q xs w h)
        | inr off_main ↦ elim (Bool-cases (q.network_id == test)) [
          | inl on_test ↦ rw (coin, off_main, on_test) (resync_bitcoin-Spares user q xs w h)
          | inr nowhere ↦ rw (coin, off_main, nowhere) (Spares-refl w.books)
        ]
      ]
      | inr other ↦ elim (Bool-cases (q.currency_id == ether)) [
        | inl gas ↦ rw (other, gas) (resync_ether-Kept q xs w)
        | inr neither ↦ rw (other, neither) (Spares-refl w.books)
      ]
    ]

    resync_path-Kept :
        (path user : Str) (q : Asked) (w : Clients)
        → Kept w (resync_path c txs outs spend path user q w).1
    unfolding resync_path
    resync_path-Kept [] user q w = Spares-refl w.books
    resync_path-Kept (letter ∷ letters) user q w = resync_chain-Kept user q [] w tt

    resync_addresses-Kept :
        (user : Str) (q : Asked) (xs : List Address) (w : Clients)
        → Mine xs
        → Kept w (resync_addresses c txs outs spend user q xs w).1
    unfolding resync_addresses
    resync_addresses-Kept user q (x ∷ xs) w h = resync_chain-Kept user q (x ∷ xs) w h
    resync_addresses-Kept user q [] w h = resync_path-Kept q.derivation_path user q w

    resync_for-Kept :
        (q : Asked) (a : Answer User) (w : Clients)
        → ((user : User) → a ≡ ok user → Owned user.wallets)
        → Kept w (resync_for c txs outs spend q a w).1
    unfolding resync_for
    resync_for-Kept q not_found w owned = Spares-refl w.books
    resync_for-Kept q (failed why) w owned = Spares-refl w.books
    resync_for-Kept q (ok user) w owned = resync_addresses-Kept user.user_id q _ w (
        addresses_to_resync-Mine q.currency_id q.network_id q.wallet_index user.wallets []
          (owned user refl) tt)

    resync_with-Kept :
        (wrong : Option Str) (token : Str) (q : Asked) (users : c.State) (w : Clients)
        → ((user : User) → c.find_one (has_jwt token) users ≡ ok user → Owned user.wallets)
        → Kept w (resync_decoded c txs outs spend wrong token q users w).1
    unfolding resync_decoded
    resync_with-Kept (some why) token q users w owned = Spares-refl w.books
    resync_with-Kept none token q users w owned =
        resync_for-Kept q (c.find_one (has_jwt token) users) w owned

    -- A resync leaves every document of the histories, outputs and spent outputs of both of Bitcoin's
    -- networks as it is, in its place, that names no address of the wallets of the user with the
    -- token, whatever the request says and however the writes end: `mine` is any test that holds of
    -- these addresses. Where the process ends there is nothing to say.
    pub resync_wallet-Kept :
        (r : ResyncRequest) (users : c.State) (w : Clients)
        → ((token : Str) (user : User)
            → r.token ≡ some token
            → c.find_one (has_jwt token) users ≡ ok user
            → Owned user.wallets)
        → Kept w (resync_wallet c txs outs spend r users w).1
    unfolding resync_wallet resync_with
    resync_wallet-Kept r users w owned = by_token r.token refl
      where
        by_token :
            (token : Option Str)
            → r.token ≡ token
            → Kept w (resync_with c txs outs spend token r users w).1
        by_token none e = Spares-refl w.books
        by_token (some token) e =
            resync_with-Kept _ token _ users w (λ user read. owned token user e read)
