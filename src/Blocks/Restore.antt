-- ===== src/Blocks/Restore.antt =====
-- The state that is restored at the start: `FetchLastSyncBlockState` of store/store.go and
-- `restoreState` of multy-back.go, which asks the node for the blocks since the last one recorded.
use multy_back.Prelude.{
  ℕ, ◌+◌, ◌-◌, ◌%◌, ◌<◌, ◌^◌, ◌≡◌, refl, ap, ◌∙◌, Bool, true, false, ◌||◌, ◌&&◌, Option, none, some,
  subst, sym, ◌⊎◌, List, [], ◌∷◌, ◌++◌, ◌==◌, any, find, Str, codes, if◌then◌else◌, i64_mod, i64_gt,
  arith, Bool-cases, inl, inr,
}
use multy_back.Currencies.{bitcoin, ether}
use multy_back.Store.Collection.{Answer, ok, not_found, failed, Collection, modify, modify_or_add}
use multy_back.Blocks.{LastState, Document, is_state, note_height, new_block}

-- `CoinType`
pub record CoinType : Type 0 where
  pub currency_id : ℕ
  pub network_id : ℕ
  pub accuracy_range : ℕ

-- The answer of a node to `SyncState`, and what becomes of the start.
pub data SyncReply : Type 0 where
  message : Str → SyncReply
  call_failed : Str → SyncReply

pub record Restored : Type 0 where
  -- The height that the node is asked from.
  pub asked_from : Option ℕ
  pub has_panicked : Bool

unfoldable pub starts_with : Str → Str → Bool
starts_with [] text = true
starts_with (x ∷ xs) [] = false
starts_with (x ∷ xs) (y ∷ ys) = x == y && starts_with xs ys

-- `strings.Contains(text, part)`
unfoldable pub contains : Str → Str → Bool
unfolding starts_with
contains [] part = starts_with part []
contains (x ∷ xs) part = starts_with part (x ∷ xs) || contains xs part

-- The message is looked for in "err:", not the other way round, and where it is found the text of the
-- error is read, which is nil unless the call failed.
unfoldable pub is_nil_read : SyncReply → Bool
unfolding contains
is_nil_read (message text) = contains (codes "err:") text
is_nil_read (call_failed why) = false

unfoldable pub height_of : Answer LastState → ℕ
height_of (ok l) = l.block_height
height_of not_found = 0
height_of (failed why) = 0

-- `height - int64(coinType.AccuracyRange)`
unfoldable pub trusted_height : ℕ → ℕ → ℕ
trusted_height height range = (height + i64_mod - range) % i64_mod

-- `sync` is the node's answer to a height.
unfoldable pub restore_from : (sync : ℕ → SyncReply) → CoinType → ℕ → Restored
unfolding is_nil_read
restore_from sync coin height =
    if i64_gt height 0 && (coin.currency_id == ether || coin.currency_id == bitcoin)
    then record { asked_from = some height; has_panicked = is_nil_read (sync height) }
    else record { asked_from = none; has_panicked = false }

module _ (r : Collection LastState) where
  unfoldable pub fetch_last_sync_block_state : ℕ → ℕ → r.State → Answer LastState
  unfolding is_state
  fetch_last_sync_block_state network currency s = r.find_one (is_state currency network) s

  unfoldable pub restore_state : (sync : ℕ → SyncReply) → CoinType → r.State → Restored
  unfolding restore_from fetch_last_sync_block_state height_of trusted_height
  restore_state sync coin s =
      if i64_gt coin.accuracy_range 0
      then restore_from sync coin (
          trusted_height
            (height_of (fetch_last_sync_block_state coin.network_id coin.currency_id s))
            coin.accuracy_range)
      else record { asked_from = none; has_panicked = false }

module _ {D : Type 0} (Q : D → Type 0) (p : D → Bool) (f : D → D) (same : (d : D) → p (f d) ≡ p d)
    (made : (d : D) → Q (f d)) where
  find-modify : (ds : List D) (d : D) → find p (modify p f ds) ≡ some d → Q d
  unfolding modify
  find-modify [] d e = absurd (cc)
  find-modify (x ∷ xs) d e = elim (Bool-cases (p x)) [
    | inl hit ↦ subst Q (ground (arith, hit, same x)) (made x)
    | inr miss ↦ find-modify xs d (ground (arith, miss, same x))
  ]

  find-append-last :
      (ds : List D) (d0 d : D) → Q d0 → find p (ds ++ d0 ∷ []) ≡ some d → any p ds ≡ false → Q d
  find-append-last [] d0 d q e none_fits = elim (Bool-cases (p d0)) [
    | inl hit ↦ subst Q (ground (arith, hit)) q
    | inr miss ↦ absurd (ground (arith, miss))
  ]
  find-append-last (x ∷ xs) d0 d q e none_fits =
      find-append-last xs d0 d q (ground arith) (ground arith)

  -- What a search finds after an upsert has been made by it.
  find-modify_or_add :
      (d0 : D) (ds : List D) (d : D) → Q d0 → find p (modify_or_add p f d0 ds) ≡ some d → Q d
  unfolding modify_or_add
  find-modify_or_add d0 ds d q e = elim (Bool-cases (any p ds)) [
    | inl known ↦ find-modify ds d (ground (arith, known))
    | inr new ↦ find-append-last ds d0 d q (ground (arith, new)) new
  ]

module _ (r : Collection LastState) (currency network h : ℕ) (s : r.State) where
  abbrev set_height : LastState → LastState
  set_height l = record l { block_height = h }

  -- The record of a block's height meets no error.
  abbrev pub IsNoted : Type 0
  IsNoted =
      (r.upsert (is_state currency network) (λ l. record l { block_height = h })
        (record { block_height = h; currency_id = currency; network_id = network }) s).0
      ≡ ok tt

  noted_height :
      (l : LastState)
      → IsNoted
      → fetch_last_sync_block_state r network currency (note_height r currency network h s) ≡ ok l
      → l.block_height ≡ h
  unfolding fetch_last_sync_block_state note_height
  noted_height l noted read =
      find-modify_or_add (λ d. d.block_height ≡ h) (is_state currency network) set_height
        (λ d. refl) (λ d. refl)
        (record { block_height = h; currency_id = currency; network_id = network }) (r.docs s) l
        refl
        (ap (find (is_state currency network)) (sym (r.upsert_ok _ set_height _ s noted))
          ∙ r.find_one_ok (is_state currency network) _ l read)

trusted_height-lt : (h range : ℕ) → range < h → h < 2 ^ 63 → trusted_height h range ≡ h - range
unfolding trusted_height
trusted_height-lt h range below small = ground arith

positive : (n : ℕ) → 0 < n → n < 2 ^ 63 → i64_gt n 0 ≡ true
unfolding i64_gt
positive n above small = ground arith

restore_from-asked :
    (sync : ℕ → SyncReply) (coin : CoinType) (n : ℕ)
    → 0 < n
    → n < 2 ^ 63
    → (coin.currency_id ≡ ether) ⊎ (coin.currency_id ≡ bitcoin)
    → (restore_from sync coin n).asked_from ≡ some n
unfolding restore_from
restore_from-asked sync coin n above small served = ground (arith, positive n above small)

module _ {D : Type 0} (doc : Document D) (t : Collection D) (r : Collection LastState) where
  -- After a block whose height is recorded without an error, and whose record the search at the start
  -- finds, the node of its chain is asked for the blocks from its height less the range, if that is
  -- above 0, the range is, and the height is below 2 ^ 63.
  pub restore_state-new_block :
      (check : List Str → List Str) (network h range : ℕ) (states : r.State) (s : t.State)
      (sync : ℕ → SyncReply) (l : LastState)
      → (doc.currency ≡ ether) ⊎ (doc.currency ≡ bitcoin)
      → 0 < range
      → range < h
      → h < 2 ^ 63
      → IsNoted r doc.currency network h states
      → fetch_last_sync_block_state r network doc.currency
          (new_block doc t r check network h range states s).0
        ≡ ok l
      → (restore_state r sync
          (record { currency_id = doc.currency; network_id = network; accuracy_range = range })
          (new_block doc t r check network h range states s).0).asked_from
        ≡ some (h - range)
  unfolding restore_state new_block height_of
  restore_state-new_block check network h range states s sync l served above below small noted
        read =
      let height = noted_height r doc.currency network h states l noted read in
      let coin : CoinType = record {
        currency_id = doc.currency;
        network_id = network;
        accuracy_range = range;
      } in
      rw
        (
          positive range above (omega (arith, below, small)),
          read,
          height,
          trusted_height-lt h range below small,
        )
        (restore_from-asked sync coin (h - range) (omega (arith, below)) (omega (arith, small))
          served)
