-- ===== src/Btc/Save/History.antt =====
-- What the history of Bitcoin transactions holds of one.
use multy_back.Prelude.{
  ◌≡◌, refl, sym, ◌∙◌, Bool, false, Option, none, some, List, [], ◌∷◌, ◌++◌, arith, find, All,
  All-append, Bool-cases, inl, inr, Str,
}
use multy_back.Store.Collection.{Answer, ok, not_found, failed, Collection, modify, update-cases}
use multy_back.Btc.Schemas.{WalletForTx, MultyTx}
use multy_back.Btc.Save.{
  is_entry, renew, is_confirmed_before, is_received_before, entry_read, save_entry, save_for,
  save_multy_in,
}

-- `d` is of the user, the transaction and the first address of `e`.
unfoldable pub is_own_at : MultyTx → List Str → MultyTx → Bool
is_own_at e [] d = false
is_own_at e (a ∷ more) d = is_entry e.user_id e.tx_id a d

abbrev pub is_own : MultyTx → MultyTx → Bool
is_own e d = is_own_at e e.tx_address d

is_own-renew : (tx d e : MultyTx) → is_own e (renew tx d) ≡ is_own e d
unfolding renew
is_own-renew tx d e = at_addresses e.tx_address
  where
    at_addresses : (as_list : List Str) → is_own_at e as_list (renew tx d) ≡ is_own_at e as_list d
    at_addresses [] = (unfold is_own_at in refl)
    at_addresses (a ∷ more) = (unfold is_own_at is_entry in refl)

renew-is_own : (tx d e : MultyTx) → is_own (renew tx d) e ≡ is_own d e
unfolding renew
renew-is_own tx d e = at_addresses d.tx_address
  where
    at_addresses : (as_list : List Str) → is_own_at (renew tx d) as_list e ≡ is_own_at d as_list e
    at_addresses [] = (unfold is_own_at in refl)
    at_addresses (a ∷ more) = (unfold is_own_at in refl)

-- No transaction is in the history when one of the same user, number and first address is added.
abbrev pub IsKeyed : List MultyTx → Type 0
IsKeyed [] = Unit
IsKeyed (d ∷ ds) = All (λ e. is_own e d ≡ false) ds × IsKeyed ds

snoc-IsKeyed :
    (tx : MultyTx) (ds : List MultyTx)
    → find (is_own tx) ds ≡ none
    → IsKeyed ds
    → IsKeyed (ds ++ tx ∷ [])
snoc-IsKeyed tx [] absent h = (tt, tt)
snoc-IsKeyed tx (d ∷ ds) absent (apart, h) =
    let new : is_own tx d ≡ false = ground arith in
    (
      All-append (λ e. is_own e d ≡ false) ds (tx ∷ []) apart (new, tt),
      snoc-IsKeyed tx ds (ground arith) h,
    )

module _ (tx : MultyTx) (p : MultyTx → Bool) where
  modify-apart :
      (d : MultyTx) (ds : List MultyTx)
      → All (λ e. is_own e d ≡ false) ds
      → All (λ e. is_own e d ≡ false) (modify p (renew tx) ds)
  unfolding modify
  modify-apart d [] h = tt
  modify-apart d (x ∷ ds) (q, h) = ground (arith, modify-apart d ds h, renew-is_own tx x d)

  apart-renew :
      (d : MultyTx) (ds : List MultyTx)
      → All (λ e. is_own e d ≡ false) ds
      → All (λ e. is_own e (renew tx d) ≡ false) ds
  apart-renew d [] h = tt
  apart-renew d (x ∷ ds) (q, h) = (is_own-renew tx d x ∙ q, apart-renew d ds h)

  modify-IsKeyed : (ds : List MultyTx) → IsKeyed ds → IsKeyed (modify p (renew tx) ds)
  unfolding modify
  modify-IsKeyed [] h = tt
  modify-IsKeyed (d ∷ ds) (apart, h) = elim (Bool-cases (p d)) [
    | inl here ↦ rw here (apart-renew d ds apart, h)
    | inr past ↦ rw past (modify-apart d ds apart, modify-IsKeyed ds h)
  ]

module _ (t : Collection MultyTx) where
  -- The history that a save leaves, if it does not panic, is keyed.
  abbrev pub KeyedAfter : Option (Answer (Unit {0}) × t.State) → Type 0
  KeyedAfter none = Unit
  KeyedAfter (some (a, s)) = IsKeyed (t.docs s)

  entry_read-IsKeyed :
      (tx : MultyTx) (sel : MultyTx → Bool) (a : Answer MultyTx) (s : t.State)
      → (t.find_one sel s ≡ a)
      → (find sel (t.docs s) ≡ none → find (is_own tx) (t.docs s) ≡ none)
      → IsKeyed (t.docs s)
      → IsKeyed (t.docs (entry_read t tx sel a s).1)
  unfolding entry_read
  entry_read-IsKeyed tx sel (ok d) s read absent h = elim (update-cases t sel (renew tx) s) [
    | inl same ↦ rw same h
    | inr changed ↦ rw changed (modify-IsKeyed tx sel (t.docs s) h)
  ]
  entry_read-IsKeyed tx sel not_found s read absent h = elim (t.insert_other tx s) [
    | inl same ↦ rw same h
    | inr added ↦ rw added (snoc-IsKeyed tx (t.docs s) (absent (t.find_one_not_found sel s read)) h)
  ]
  entry_read-IsKeyed tx sel (failed why) s read absent h = h

  save_entry-IsKeyed :
      (tx : MultyTx) (w : WalletForTx) (addresses : List Str) (s : t.State)
      → tx.tx_address ≡ addresses
      → w.user_id ≡ tx.user_id
      → IsKeyed (t.docs s)
      → KeyedAfter (save_entry t tx w addresses s)
  unfolding save_entry
  save_entry-IsKeyed tx w [] s e own h = tt
  save_entry-IsKeyed tx w (a ∷ more) s e own h =
      entry_read-IsKeyed tx (is_entry w.user_id tx.tx_id a)
        (t.find_one (is_entry w.user_id tx.tx_id a) s) s refl
        (λ absent. unfold is_own_at in rw e (rw (sym own) absent)) h

  save_for-IsKeyed :
      (tx : MultyTx) (ins outs : List WalletForTx) (s : t.State)
      → All (λ w. w.user_id ≡ tx.user_id) (ins ++ outs)
      → IsKeyed (t.docs s)
      → KeyedAfter (save_for t tx ins outs s)
  unfolding save_for
  save_for-IsKeyed tx (w ∷ ws) outs s (own, _) h =
      save_entry-IsKeyed tx w tx.tx_address s refl own h
  save_for-IsKeyed tx [] (w ∷ ws) s (own, _) h = save_entry-IsKeyed tx w tx.tx_address s refl own h
  save_for-IsKeyed tx [] [] s own h = h

  -- However often a transaction is reported, and however the reads and writes end, the history never
  -- gets a second entry for one user, transaction and first address, if the wallets of each report
  -- are of the transaction's user.
  pub save_multy_in-IsKeyed :
      (tx : MultyTx) (s : t.State)
      → All (λ w. w.user_id ≡ tx.user_id) (tx.wallets_input ++ tx.wallets_output)
      → IsKeyed (t.docs s)
      → KeyedAfter (save_multy_in t tx s)
  unfolding save_multy_in
  save_multy_in-IsKeyed tx s own h = elim (Bool-cases (is_confirmed_before t tx s)) [
    | inl before ↦ rw before h
    | inr new ↦ rw new (elim (Bool-cases (is_received_before t tx s)) [
      | inl before ↦ rw before h
      | inr fresh ↦ rw fresh (save_for-IsKeyed tx tx.wallets_input tx.wallets_output s own h)
    ])
  ]
