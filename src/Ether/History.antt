-- ===== src/Ether/History.antt =====
-- What the history holds of a transaction.
use multy_back.Prelude.{
  ◌≡◌, refl, subst, ◌∙◌, true, false, ◌||◌, none, some, List, [], ◌∷◌, ◌++◌, arith, find, All,
  All-append, Bool-cases, inl, inr, str_eq_iff, str_eq_refl,
}
use multy_back.Store.Schemas.{TransactionEth}
use multy_back.Store.Collection.{Answer, ok, not_found, failed, Collection, modify, update-cases}
use multy_back.Ether.Save.{is_incoming, is_outgoing, same_key, refresh, save_read, save_in}

same_key_refl : (tx : TransactionEth) → same_key tx tx ≡ true
unfolding same_key
same_key_refl tx = ground (arith, str_eq_refl tx.user_id, str_eq_refl tx.hash)

same_key_comm : (a b : TransactionEth) → same_key a b ≡ false → same_key b a ≡ false
unfolding same_key
same_key_comm a b h = ground (
  arith,
  str_eq_iff a.user_id b.user_id,
  str_eq_iff b.user_id a.user_id,
  str_eq_iff a.hash b.hash,
  str_eq_iff b.hash a.hash,
)

same_key-refresh : (tx d e : TransactionEth) → same_key e (refresh tx d) ≡ same_key e d
unfolding same_key refresh
same_key-refresh tx d e = refl

refresh-same_key : (tx d e : TransactionEth) → same_key (refresh tx d) e ≡ same_key d e
unfolding same_key refresh
refresh-same_key tx d e = refl

-- No user has a transaction twice in one wallet.
abbrev pub IsKeyed : List TransactionEth → Type 0
IsKeyed [] = Unit
IsKeyed (d ∷ ds) = All (λ e. same_key d e ≡ false) ds × IsKeyed ds

snoc-IsKeyed :
    (tx : TransactionEth) (ds : List TransactionEth)
    → find (same_key tx) ds ≡ none
    → IsKeyed ds
    → IsKeyed (ds ++ tx ∷ [])
snoc-IsKeyed tx [] absent h = (tt, tt)
snoc-IsKeyed tx (d ∷ ds) absent (apart, h) =
    let new : same_key tx d ≡ false = ground arith in
    (
      All-append (λ e. same_key d e ≡ false) ds (tx ∷ []) apart (same_key_comm tx d new, tt),
      snoc-IsKeyed tx ds (ground arith) h,
    )

module _ (tx : TransactionEth) where
  modify-apart :
      (d : TransactionEth) (ds : List TransactionEth)
      → All (λ e. same_key d e ≡ false) ds
      → All (λ e. same_key d e ≡ false) (modify (same_key tx) (refresh tx) ds)
  unfolding modify
  modify-apart d [] h = tt
  modify-apart d (x ∷ ds) (q, h) = ground (arith, modify-apart d ds h, same_key-refresh tx x d)

  apart-refresh :
      (d : TransactionEth) (ds : List TransactionEth)
      → All (λ e. same_key d e ≡ false) ds
      → All (λ e. same_key (refresh tx d) e ≡ false) ds
  apart-refresh d [] h = tt
  apart-refresh d (x ∷ ds) (q, h) = (refresh-same_key tx d x ∙ q, apart-refresh d ds h)

  modify-IsKeyed :
      (ds : List TransactionEth) → IsKeyed ds → IsKeyed (modify (same_key tx) (refresh tx) ds)
  unfolding modify
  modify-IsKeyed [] h = tt
  modify-IsKeyed (d ∷ ds) (apart, h) = elim (Bool-cases (same_key tx d)) [
    | inl here ↦ rw here (apart-refresh d ds apart, h)
    | inr past ↦ rw past (modify-apart d ds apart, modify-IsKeyed ds h)
  ]

  find-modify :
      (d : TransactionEth) (ds : List TransactionEth)
      → find (same_key tx) ds ≡ some d
      → find (same_key tx) (modify (same_key tx) (refresh tx) ds) ≡ some (refresh tx d)
  unfolding modify
  find-modify d [] e = absurd (cc e)
  find-modify d (x ∷ ds) e = ground (arith, same_key-refresh tx x tx, find-modify d ds)

  find-append :
      (ds : List TransactionEth)
      → find (same_key tx) ds ≡ none
      → find (same_key tx) (ds ++ tx ∷ []) ≡ some tx
  find-append [] e = rw (same_key_refl tx) refl
  find-append (x ∷ ds) e = ground (arith, find-append ds)

module _ (t : Collection TransactionEth) where
  save_read-IsKeyed :
      (tx : TransactionEth) (a : Answer TransactionEth) (s : t.State)
      → t.find_one (same_key tx) s ≡ a
      → IsKeyed (t.docs s)
      → IsKeyed (t.docs (save_read t tx a s).1)
  unfolding save_read
  save_read-IsKeyed tx (ok d) s read h = elim (update-cases t (same_key tx) (refresh tx) s) [
    | inl same ↦ rw same h
    | inr changed ↦ rw changed (modify-IsKeyed tx (t.docs s) h)
  ]
  save_read-IsKeyed tx not_found s read h = elim (t.insert_other tx s) [
    | inl same ↦ rw same h
    | inr added ↦
        rw added (snoc-IsKeyed tx (t.docs s) (t.find_one_not_found (same_key tx) s read) h)
  ]
  save_read-IsKeyed tx (failed why) s read h = h

  -- A history that has no transaction twice for one user and wallet still has none twice after one more
  -- is saved, known or new, however the reads and writes end.
  pub save_in-IsKeyed :
      (tx : TransactionEth) (s : t.State) → IsKeyed (t.docs s) → IsKeyed (t.docs (save_in t tx s).1)
  unfolding save_in
  save_in-IsKeyed tx s h =
      ground (arith, save_read-IsKeyed tx (t.find_one (same_key tx) s) s refl h)

  -- The document that the history has for a transaction's user, hash and wallet is up to date.
  abbrev pub IsRecorded : TransactionEth → List TransactionEth → Type 0
  IsRecorded tx ds =
      (d : TransactionEth) × (find (same_key tx) ds ≡ some d)
      × (d.status ≡ tx.status)
      × (d.block_height ≡ tx.block_height)
      × (d.block_time ≡ tx.block_time)

  save_read-IsRecorded :
      (tx : TransactionEth) (a : Answer TransactionEth) (s : t.State)
      → t.find_one (same_key tx) s ≡ a
      → (save_read t tx a s).0 ≡ ok tt
      → IsRecorded tx (t.docs (save_read t tx a s).1)
  unfolding save_read refresh
  save_read-IsRecorded tx (ok d) s read written =
      rw (t.update_ok (same_key tx) (refresh tx) s written) (
        refresh tx d,
        find-modify tx d (t.docs s) (t.find_one_ok (same_key tx) s d read),
        refl,
        refl,
        refl,
      )
  save_read-IsRecorded tx not_found s read written =
      rw (t.insert_ok tx s written) (
        tx,
        find-append tx (t.docs s) (t.find_one_not_found (same_key tx) s read),
        refl,
        refl,
        refl,
      )
  save_read-IsRecorded tx (failed why) s read written = absurd (cc written)

  save_in_known :
      (tx : TransactionEth) (s : t.State)
      → (is_incoming tx.status || is_outgoing tx.status) ≡ true
      → save_read t tx (t.find_one (same_key tx) s) s ≡ save_in t tx s
  unfolding save_in
  save_in_known tx s known = ground arith

  -- A transaction that comes in or goes out is in the history when `saveTransaction` returns without
  -- an error, with the status and the block that it was reported with last.
  pub save_in-IsRecorded :
      (tx : TransactionEth) (s : t.State)
      → (is_incoming tx.status || is_outgoing tx.status) ≡ true
      → (save_in t tx s).0 ≡ ok tt
      → IsRecorded tx (t.docs (save_in t tx s).1)
  save_in-IsRecorded tx s known written =
      subst (λ r. r.0 ≡ ok tt → IsRecorded tx (t.docs r.1)) (save_in_known tx s known)
        (save_read-IsRecorded tx (t.find_one (same_key tx) s) s refl) written
