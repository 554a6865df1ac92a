-- ===== src/Blocks/Rejected.antt =====
-- What a block does to the statuses of the transactions on Ethereum.
use multy_back.Prelude.{
  ℕ, ◌≡◌, refl, ap, ◌∙◌, sym, Bool, List, [], ◌∷◌, Str, arith, map, any, str_eq, if◌then◌else◌, ◌⊎◌,
  inl, inr, Bool-cases,
}
use multy_back.Store.Schemas.{TransactionEth, tx_rejected_incoming, tx_rejected_outgoing}
use multy_back.Store.Collection.{Collection, ok}
use multy_back.Store.Pointwise.{
  Related, Related-refl, Related-trans, MayChange, update_all-MayChange, modify_all-map,
}
use multy_back.Blocks.{
  LastState, ether_document, hash_is, is_coming_in, is_going_out, is_incoming_of, is_outgoing_of,
  reject_in, reject_out, reject_all, open_hashes, new_block,
}

abbrev pub is_named : List Str → Str → Bool
is_named hashes k = any (str_eq k) hashes

-- What becomes of a transaction whose hash the node has rejected or not.
unfoldable pub settle : List Str → TransactionEth → TransactionEth
settle hashes d =
    if is_named hashes d.hash
    then (if is_coming_in d.status
        then record d { status = tx_rejected_incoming }
        else if is_going_out d.status
        then record d { status = tx_rejected_outgoing }
        else d)
    else d

reject_one : Str → TransactionEth → TransactionEth
reject_one h d =
    if is_incoming_of ether_document h d then record d { status = tx_rejected_incoming } else d

then_out : Str → TransactionEth → TransactionEth
then_out h d =
    if is_outgoing_of ether_document h d then record d { status = tx_rejected_outgoing } else d

-- The two writes of a hash settle its transaction, and later ones find nothing left to do.
settle-cons :
    (h : Str) (hashes : List Str) (d : TransactionEth)
    → settle hashes (then_out h (reject_one h d)) ≡ settle (h ∷ hashes) d
unfolding settle reject_one then_out is_incoming_of is_outgoing_of hash_is is_coming_in is_going_out
settle-cons h hashes d = ground arith

settle-nil : (d : TransactionEth) → settle [] d ≡ d
unfolding settle
settle-nil d = refl

-- A transaction is as it was, or is settled.
abbrev pub MaySettle : List Str → TransactionEth → TransactionEth → Type 0
MaySettle hashes d d' = (d' ≡ d) ⊎ (d' ≡ settle hashes d)

settle_more :
    (h : Str) (hashes : List Str) (d : TransactionEth)
    → (settle hashes d ≡ d) ⊎ (settle hashes d ≡ settle (h ∷ hashes) d)
unfolding settle
settle_more h hashes d = elim (Bool-cases (is_named hashes d.hash)) [
  | inl named ↦ inr (ground arith)
  | inr other ↦ inl (ground arith)
]

-- Each of the two writes of a hash leaves a transaction as it was, or settles it.
in_settles :
    (h : Str) (hashes : List Str) (d : TransactionEth) → MaySettle (h ∷ hashes) d (reject_one h d)
unfolding settle reject_one is_incoming_of hash_is
in_settles h hashes d = elim (Bool-cases (is_incoming_of ether_document h d)) [
  | inl hit ↦ inr (unfold is_incoming_of hash_is in ground arith)
  | inr past ↦ inl (ground arith)
]

out_settles :
    (h : Str) (hashes : List Str) (d : TransactionEth) → MaySettle (h ∷ hashes) d (then_out h d)
unfolding settle then_out is_outgoing_of hash_is is_coming_in is_going_out
out_settles h hashes d = elim (Bool-cases (is_outgoing_of ether_document h d)) [
  | inl hit ↦ inr (unfold is_outgoing_of hash_is is_going_out in ground arith)
  | inr past ↦ inl (ground arith)
]

in_settled :
    (h : Str) (hashes : List Str) (d : TransactionEth)
    → reject_one h (settle (h ∷ hashes) d) ≡ settle (h ∷ hashes) d
unfolding settle reject_one is_incoming_of hash_is is_coming_in is_going_out
in_settled h hashes d = ground arith

out_settled :
    (h : Str) (hashes : List Str) (d : TransactionEth)
    → then_out h (settle (h ∷ hashes) d) ≡ settle (h ∷ hashes) d
unfolding settle then_out is_outgoing_of hash_is is_coming_in is_going_out
out_settled h hashes d = ground arith

more_settled :
    (h : Str) (hashes : List Str) (d : TransactionEth)
    → settle hashes (settle (h ∷ hashes) d) ≡ settle (h ∷ hashes) d
unfolding settle is_coming_in is_going_out
more_settled h hashes d = ground arith

-- A transaction that may be settled may be so after one more change that settles.
settle_on :
    (hashes : List Str) (f : TransactionEth → TransactionEth)
    → ((d : TransactionEth) → MaySettle hashes d (f d))
    → ((d : TransactionEth) → f (settle hashes d) ≡ settle hashes d)
    → (d d' d'' : TransactionEth) → MaySettle hashes d d'
    → (d'' ≡ d') ⊎ (d'' ≡ f d')
    → MaySettle hashes d d''
settle_on hashes f first again d d' d'' (inl same) (inl kept) = inl (kept ∙ same)
settle_on hashes f first again d d' d'' (inr set) (inl kept) = inr (kept ∙ set)
settle_on hashes f first again d d' d'' (inr set) (inr done) = inr (done ∙ ap f set ∙ again d)
settle_on hashes f first again d d' d'' (inl same) (inr done) = elim (first d) [
  | inl idle ↦ inl (done ∙ ap f same ∙ idle)
  | inr hit ↦ inr (done ∙ ap f same ∙ hit)
]

module _ (t : Collection TransactionEth) where
  reject_all-MaySettle :
      (hashes : List Str) (s : t.State)
      → Related (MaySettle hashes) (t.docs s) (t.docs (reject_all ether_document t hashes s))
  unfolding reject_all reject_in reject_out reject_one then_out
  reject_all-MaySettle [] s = Related-refl (MaySettle []) (λ d. inl refl) (t.docs s)
  reject_all-MaySettle (h ∷ hashes) s =
      let s' = reject_in ether_document t h s in
      let s'' = reject_out ether_document t h s' in
      let after_in =
        Related-trans (λ d d'. d' ≡ d)
          (MayChange (is_incoming_of ether_document h)
            (ether_document.set_status tx_rejected_incoming))
          (MaySettle (h ∷ hashes))
          (λ x y z same change.
            settle_on (h ∷ hashes) (reject_one h) (in_settles h hashes) (in_settled h hashes) x y z
              (inl same) change)
          (t.docs s) (t.docs s) (t.docs s') (Related-refl (λ d d'. d' ≡ d) (λ d. refl) (t.docs s))
          (update_all-MayChange t (is_incoming_of ether_document h)
            (ether_document.set_status tx_rejected_incoming) s) in
      let after_out =
        Related-trans (MaySettle (h ∷ hashes))
          (MayChange (is_outgoing_of ether_document h)
            (ether_document.set_status tx_rejected_outgoing))
          (MaySettle (h ∷ hashes))
          (settle_on (h ∷ hashes) (then_out h) (out_settles h hashes) (out_settled h hashes))
          (t.docs s) (t.docs s') (t.docs s'') after_in
          (update_all-MayChange t (is_outgoing_of ether_document h)
            (ether_document.set_status tx_rejected_outgoing) s') in
      Related-trans (MaySettle (h ∷ hashes)) (MaySettle hashes) (MaySettle (h ∷ hashes))
        (settle_on (h ∷ hashes) (settle hashes) (settle_more h hashes) (more_settled h hashes))
        (t.docs s) (t.docs s'') (t.docs (reject_all ether_document t hashes s'')) after_out
        (reject_all-MaySettle hashes s'')

  -- Whatever the node answers and however the writes end, a block leaves each transaction as it was,
  -- or gives it the status of its direction's rejection, if the node has named its hash.
  pub new_block-MaySettle :
      (r : Collection LastState) (check : List Str → List Str) (network h range : ℕ)
      (states : r.State) (s : t.State)
      → Related
          (MaySettle (check (open_hashes ether_document t h range s)))
          (t.docs s)
          (t.docs (new_block ether_document t r check network h range states s).1)
  unfolding new_block
  new_block-MaySettle r check network h range states s =
      reject_all-MaySettle (check (open_hashes ether_document t h range s)) s

  -- The writes that the rejections make all succeed.
  abbrev pub Works : Type 0
  Works =
      (p : TransactionEth → Bool) (f : TransactionEth → TransactionEth) (s : t.State)
      → (t.update_all p f s).0 ≡ ok tt

  reject_in-map :
      (works : Works) (h : Str) (s : t.State)
      → t.docs (reject_in ether_document t h s) ≡ map (reject_one h) (t.docs s)
  unfolding reject_in reject_one
  reject_in-map works h s =
      let p = is_incoming_of ether_document h in
      let f = ether_document.set_status tx_rejected_incoming in
      t.update_all_ok p f s (works p f s) ∙ modify_all-map p f (t.docs s)

  reject_out-map :
      (works : Works) (h : Str) (s : t.State)
      → t.docs (reject_out ether_document t h s) ≡ map (then_out h) (t.docs s)
  unfolding reject_out then_out
  reject_out-map works h s =
      let p = is_outgoing_of ether_document h in
      let f = ether_document.set_status tx_rejected_outgoing in
      t.update_all_ok p f s (works p f s) ∙ modify_all-map p f (t.docs s)

  settle_each :
      (h : Str) (hashes : List Str) (ds : List TransactionEth)
      → map (settle hashes) (map (then_out h) (map (reject_one h) ds))
        ≡ map (settle (h ∷ hashes)) ds
  settle_each h hashes [] = refl
  settle_each h hashes (d ∷ ds) = cc (settle-cons h hashes d, settle_each h hashes ds)

  settle_none : (ds : List TransactionEth) → map (settle []) ds ≡ ds
  settle_none [] = refl
  settle_none (d ∷ ds) = cc (settle-nil d, settle_none ds)

  reject_all-map :
      (works : Works) (hashes : List Str) (s : t.State)
      → t.docs (reject_all ether_document t hashes s) ≡ map (settle hashes) (t.docs s)
  unfolding reject_all
  reject_all-map works [] s = sym (settle_none (t.docs s))
  reject_all-map works (h ∷ hashes) s =
      let s' = reject_in ether_document t h s in
      reject_all-map works hashes (reject_out ether_document t h s')
      ∙ ap (map (settle hashes))
          (reject_out-map works h s' ∙ ap (map (then_out h)) (reject_in-map works h s))
      ∙ settle_each h hashes (t.docs s)

  -- Where the writes succeed, exactly the transactions whose hash the node has named and that are not
  -- rejected or failed yet become rejected, each in its direction, and no other changes.
  pub new_block-map :
      (works : Works) (r : Collection LastState) (check : List Str → List Str) (network h range : ℕ)
      (states : r.State) (s : t.State)
      → t.docs (new_block ether_document t r check network h range states s).1
        ≡ map (settle (check (open_hashes ether_document t h range s))) (t.docs s)
  unfolding new_block
  new_block-map works r check network h range states s =
      reject_all-map works (check (open_hashes ether_document t h range s)) s
