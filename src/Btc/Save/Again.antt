-- ===== src/Btc/Save/Again.antt =====
-- A payment that is reported again.
use multy_back.Prelude.{
  ◌≡◌, ◌≢◌, refl, sym, subst, ◌∙◌, Bool, true, false, ◌&&◌, some, List, [], ◌∷◌, ◌++◌, arith, All,
  any, Str, str_eq, str_eq_iff, find-any, ap,
}
use multy_back.Store.Collection.{Answer, ok, not_found, failed, Collection}
use multy_back.Store.Members.{any-append_last, find-any-true}
use multy_back.Btc.Schemas.{WalletForTx, MultyTx}
use multy_back.Btc.Save.{
  pays_wallet, is_report, is_receipt, is_entry, into_value, into_nothing, is_ok, first_answers,
  is_confirmed_before, is_received_before, entry_read, save_entry, save_for, save_multy_in,
}

into_value_fails : (a : Answer MultyTx) → is_ok (into_value a) ≡ false
unfolding into_value is_ok
into_value_fails (ok d) = refl
into_value_fails not_found = refl
into_value_fails (failed why) = refl

module _ (t : Collection MultyTx) where
  value_search_fails :
      (tx : MultyTx) (ws : List WalletForTx) (s : t.State)
      → first_answers t (λ w. into_value (t.find_one (is_report tx w) s)) ws ≡ false
  unfolding first_answers
  value_search_fails tx [] s = refl
  value_search_fails tx (w ∷ ws) s = into_value_fails (t.find_one (is_report tx w) s)

  -- The first of the two tests never holds.
  pub is_confirmed_before_never : (tx : MultyTx) (s : t.State) → is_confirmed_before t tx s ≡ false
  unfolding is_confirmed_before
  is_confirmed_before_never tx s =
      ground
        (arith, value_search_fails tx tx.wallets_input s, value_search_fails tx tx.wallets_output s)

  receipt_read :
      (a : Answer MultyTx)
      → ((why : Str) → a ≢ failed why)
      → a ≢ not_found
      → is_ok (into_nothing a) ≡ true
  unfolding into_nothing is_ok
  receipt_read (ok d) works found = refl
  receipt_read not_found works found = absurd (found refl)
  receipt_read (failed why) works found = absurd (works why refl)

  -- Where the history has the receipt of a transaction, a further report is dropped.
  save_known :
      (tx : MultyTx) (w : WalletForTx) (ws : List WalletForTx) (s : t.State)
      → tx.wallets_input ≡ []
      → tx.wallets_output ≡ w ∷ ws
      → ((why : Str) → t.find_one (is_receipt tx w) s ≢ failed why)
      → any (is_receipt tx w) (t.docs s) ≡ true
      → save_multy_in t tx s ≡ some (ok tt, s)
  unfolding save_multy_in is_received_before first_answers is_receipt save_for
  save_known tx w ws s ins outs works there =
      let answered : is_ok (into_nothing (t.find_one (is_receipt tx w) s)) ≡ true =
        receipt_read (t.find_one (is_receipt tx w) s) works (λ absent. cc (
          find-any (is_receipt tx w) (t.docs s) (t.find_one_not_found (is_receipt tx w) s absent),
          there,
        )) in
      rw (is_confirmed_before_never tx s) (rw (ins, outs) (rw answered refl))

  -- The history has nothing of the transaction for its user.
  abbrev pub IsNew : MultyTx → List MultyTx → Type 0
  IsNew tx = All (λ d. (str_eq d.user_id tx.user_id && str_eq d.tx_id tx.tx_id) ≡ false)

  -- Another report of the same receipt: whatever else it says, it has the user, the number, the time
  -- and the index of the wallet that is paid first.
  pub record IsReportOf (first again : MultyTx) (w : WalletForTx) : Type 0 where
    pub user : again.user_id ≡ first.user_id
    pub number : again.tx_id ≡ first.tx_id
    pub time : again.mempool_time ≡ first.mempool_time
    pub paid : WalletForTx
    pub others : List WalletForTx
    pub outs : again.wallets_output ≡ paid ∷ others
    pub ins : again.wallets_input ≡ []
    pub index : paid.wallet_index ≡ w.wallet_index

  new-entry :
      (tx : MultyTx) (user a : Str) (ds : List MultyTx)
      → user ≡ tx.user_id
      → IsNew tx ds
      → any (is_entry user tx.tx_id a) ds ≡ false
  new-entry tx user a [] own h = refl
  new-entry tx user a (d ∷ ds) own (q, h) =
      let past : is_entry user tx.tx_id a d ≡ false = (unfold is_entry in rw own (ground arith)) in
      ground (arith, new-entry tx user a ds own h, past)

  new-receipt :
      (tx : MultyTx) (w : WalletForTx) (ds : List MultyTx)
      → IsNew tx ds
      → any (is_receipt tx w) ds ≡ false
  new-receipt tx w [] h = refl
  new-receipt tx w (d ∷ ds) (q, h) =
      let past : is_receipt tx w d ≡ false = (unfold is_receipt in ground arith) in
      ground (arith, new-receipt tx w ds h, past)

  own-receipt :
      (first again : MultyTx) (w : WalletForTx) (ws : List WalletForTx)
      → first.wallets_output ≡ w ∷ ws
      → (r : IsReportOf first again w) → is_receipt again r.paid first ≡ true
  unfolding is_receipt pays_wallet
  own-receipt first again w ws outs r = ground (
    arith,
    str_eq_iff first.user_id again.user_id,
    str_eq_iff first.tx_id again.tx_id,
    r.user,
    r.number,
    r.time,
    r.index,
  )

  not_read :
      (p : MultyTx → Bool) (a : Answer MultyTx) (s : t.State)
      → t.find_one p s ≡ a
      → any p (t.docs s) ≡ false
      → is_ok (into_nothing a) ≡ false
  unfolding into_nothing is_ok
  not_read p (ok d) s read absent =
      absurd (cc (find-any-true p (t.docs s) d (t.find_one_ok p s d read), absent))
  not_read p not_found s read absent = refl
  not_read p (failed why) s read absent = refl

  entry_inserted :
      (tx : MultyTx) (sel : MultyTx → Bool) (a : Answer MultyTx) (s s' : t.State)
      → t.find_one sel s ≡ a
      → any sel (t.docs s) ≡ false
      → entry_read t tx sel a s ≡ (ok tt, s')
      → t.docs s' ≡ t.docs s ++ tx ∷ []
  unfolding entry_read
  entry_inserted tx sel (ok d) s s' read absent e =
      absurd (cc (find-any-true sel (t.docs s) d (t.find_one_ok sel s d read), absent))
  entry_inserted tx sel not_found s s' read absent e =
      subst (λ x. t.docs x ≡ t.docs s ++ tx ∷ []) (ap (λ r. r.1) e)
        (t.insert_ok tx s (ap (λ r. r.0) e))
  entry_inserted tx sel (failed why) s s' read absent e = absurd (cc (ap (λ r. r.0) e))

  save_entry_inserted :
      (tx : MultyTx) (w : WalletForTx) (addresses : List Str) (s s' : t.State)
      → w.user_id ≡ tx.user_id
      → IsNew tx (t.docs s)
      → save_entry t tx w addresses s ≡ some (ok tt, s')
      → t.docs s' ≡ t.docs s ++ tx ∷ []
  unfolding save_entry
  save_entry_inserted tx w [] s s' own new e = absurd (cc)
  save_entry_inserted tx w (a ∷ more) s s' own new e =
      entry_inserted tx (is_entry w.user_id tx.tx_id a)
        (t.find_one (is_entry w.user_id tx.tx_id a) s) s s' refl
        (new-entry tx w.user_id a (t.docs s) own new) (cc e)

  first_inserted :
      (tx : MultyTx) (w : WalletForTx) (ws : List WalletForTx) (s s' : t.State)
      → tx.wallets_input ≡ []
      → tx.wallets_output ≡ w ∷ ws
      → w.user_id ≡ tx.user_id
      → IsNew tx (t.docs s)
      → save_multy_in t tx s ≡ some (ok tt, s')
      → t.docs s' ≡ t.docs s ++ tx ∷ []
  first_inserted tx w ws s s' ins outs own new e =
      save_entry_inserted tx w tx.tx_address s s' own new (sym saved ∙ e)
    where
      unread : is_ok (into_nothing (t.find_one (is_receipt tx w) s)) ≡ false
      unread =
          not_read (is_receipt tx w) (t.find_one (is_receipt tx w) s) s refl
            (new-receipt tx w (t.docs s) new)

      fresh : is_received_before t tx s ≡ false
      fresh =
          (unfold is_received_before first_answers is_receipt in rw (ins, outs) (rw unread refl))

      on_outs :
          save_for t tx tx.wallets_input tx.wallets_output s ≡ save_entry t tx w tx.tx_address s
      on_outs = (unfold save_for in rw (ins, outs) refl)

      saved : save_multy_in t tx s ≡ save_entry t tx w tx.tx_address s
      saved = (unfold save_multy_in in rw (is_confirmed_before_never tx s) (rw fresh on_outs))

  -- A payment that was new to the history and has been saved is never updated: any further report of
  -- the receipt, with whatever status, height and confirmations, leaves the history as the first one
  -- made it, if the search for the receipt does not fail.
  pub save_again :
      (first again : MultyTx) (w : WalletForTx) (ws : List WalletForTx) (s s' : t.State)
      → first.wallets_input ≡ []
      → first.wallets_output ≡ w ∷ ws
      → w.user_id ≡ first.user_id
      → IsNew first (t.docs s)
      → save_multy_in t first s ≡ some (ok tt, s')
      → (r : IsReportOf first again w)
      → ((why : Str) → t.find_one (is_receipt again r.paid) s' ≢ failed why)
      → (save_multy_in t again s' ≡ some (ok tt, s')) × (t.docs s' ≡ t.docs s ++ first ∷ [])
  save_again first again w ws s s' ins outs own new saved r works =
      let added = first_inserted first w ws s s' ins outs own new saved in
      (
        save_known again r.paid r.others s' r.ins r.outs works (
            subst (λ ds. any (is_receipt again r.paid) ds ≡ true) (sym added)
              (any-append_last (is_receipt again r.paid) (t.docs s) first
                (own-receipt first again w ws outs r))),
        added,
      )
