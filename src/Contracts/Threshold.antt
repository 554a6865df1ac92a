-- ===== src/Contracts/Threshold.antt =====
-- No payment before the number of confirmations that the contract wants.
use multy_back.Prelude.{
  ℕ, ◌≡◌, ◌≢◌, refl, subst, ap, true, false, Option, none, some, List, [], ◌∷◌, ◌<◌, ◌≤◌, ◌^◌,
  arith, Bool-cases, ◌⊎◌, inl, inr, find, Str, str_eq, i64_gt, All, map, ◌∙◌,
}
use multy_back.Store.Schemas.{User, Multisig, MultisigTx, OwnerHistory, TransactionEth}
use multy_back.Store.Collection.{Answer, ok, not_found, failed, Collection}
use multy_back.Store.Members.{update_all_none}
use multy_back.Store.Pointwise.{update_all-blind}
use multy_back.Calldata.{parsed}
use multy_back.Contracts.Internal.{Draft, Vault}
use multy_back.Contracts.Requests.{
  has_txhash, is_submit_of, confirmed_by, confirm_owners, count_confirmed, set_failed, mark_failed,
  told, is_reached, set_owners, on_part,
}
use multy_back.Contracts.Confirm.{confirm_found, confirm_searched, confirm_parsed}

-- The sender is confirmed in its place, and every other owner stays as they were.
pub confirm_owners-All :
    (P : OwnerHistory → Type 0) (tx : TransactionEth) (now : ℕ) (os : List OwnerHistory)
    → P (confirmed_by tx now)
    → All P os
    → All P (confirm_owners tx now os)
unfolding confirm_owners
confirm_owners-All P tx now [] new h = tt
confirm_owners-All P tx now (o ∷ os) new (q, h) = elim (Bool-cases (str_eq o.address tx.sender)) [
  | inl mine ↦ rw mine (new, confirm_owners-All P tx now os new h)
  | inr other ↦ rw other (q, confirm_owners-All P tx now os new h)
]

is_reached-enough :
    (contract : Multisig) (owners : List OwnerHistory) (tx : TransactionEth)
    → contract.confirmations < 2 ^ 63
    → is_reached contract owners tx ≡ true
    → (contract.confirmations ≤ count_confirmed owners) × (tx.block_time ≢ 0)
unfolding is_reached i64_gt
is_reached-enough contract owners tx small reached = (ground arith, λ e. ground arith)

module _ (c : Collection User) (t : Collection TransactionEth) where
  pub mark_failed-txs :
      (d : Draft) (v : Vault c t) → t.docs (mark_failed c t d v).1.txs ≡ t.docs v.txs
  unfolding mark_failed
  mark_failed-txs d v =
      ground (arith, update_all_none t (has_txhash d.tx.hash) set_failed v.txs (λ x. refl))

  -- The number of confirmations is reached by the request that is found, the sender's included.
  abbrev pub HasEnough : Multisig → ℕ → ℕ → Draft → Vault c t → Type 0
  HasEnough contract now id d v =
      (origin : TransactionEth) × (part : MultisigTx) × (find (is_submit_of id d.ms.contract)
          (t.docs v.multisig_txs)
        ≡ some origin)
      × (origin.multisig ≡ some part)
      × (contract.confirmations ≤ count_confirmed (confirm_owners d.tx now part.owners))
      × (d.tx.block_time ≢ 0)

  -- No payment: the history of the users is as it was, no transaction of a contract is added or taken
  -- away, and those there are differ in their owners at most.
  abbrev pub IsUnpaid : Vault c t → Vault c t → Type 0
  IsUnpaid v v' =
      (t.docs v'.txs ≡ t.docs v.txs)
      × (map (set_owners []) (t.docs v'.multisig_txs) ≡ map (set_owners []) (t.docs v.multisig_txs))

  UnpaidReading : Vault c t → Option (Draft × Vault c t × List Str) → Type 0
  UnpaidReading v none = Unit
  UnpaidReading v (some r) = IsUnpaid v r.1

  set_owners-blind :
      (os : List OwnerHistory) (d : TransactionEth)
      → set_owners [] (set_owners os d) ≡ set_owners [] d
  unfolding set_owners
  set_owners-blind os d =
      ap (λ (m : Option MultisigTx). record d { multisig = m }) (part d.multisig)
    where
      part :
          (m : Option MultisigTx)
          → on_part (λ x. record x { owners = [] }) (on_part (λ x. record x { owners = os }) m)
            ≡ on_part (λ x. record x { owners = [] }) m
      part none = refl
      part (some m) = refl

  pub mark_failed-multisig_txs :
      (d : Draft) (v : Vault c t) → (mark_failed c t d v).1.multisig_txs ≡ v.multisig_txs
  unfolding mark_failed
  mark_failed-multisig_txs d v = ground arith

  confirm_found-IsUnpaid :
      (contract : Multisig) (users : List Str) (now id : ℕ) (origin : TransactionEth)
      (part : MultisigTx) (d : Draft) (v : Vault c t) (r : Draft × Vault c t × List Str)
      → is_reached contract (confirm_owners d.tx now part.owners) d.tx ≡ false
      → confirm_found c t contract users now id origin (some part) d v ≡ some r
      → IsUnpaid v r.1
  unfolding confirm_found UnpaidReading
  confirm_found-IsUnpaid contract users now id origin part d v r low e =
      let owners = confirm_owners d.tx now part.owners in
      let v' : Vault c t = record v {
        multisig_txs =
            (t.update_all (is_submit_of id d.ms.contract) (set_owners owners) v.multisig_txs).1;
      } in
      let d' : Draft = record d { ms = record d.ms { owners = [] } } in
      let marked : told c t [] (mark_failed c t d' v') ≡ some r = rw low at e in
      subst (UnpaidReading v) marked (
        mark_failed-txs d' v',
        ap (λ s. map (set_owners []) (t.docs s)) (mark_failed-multisig_txs d' v')
            ∙ update_all-blind t (set_owners []) (is_submit_of id d.ms.contract) (set_owners owners)
                v.multisig_txs (set_owners-blind owners),
      )

  -- A confirmation makes no payment, neither to a user nor to a contract, unless the request that it
  -- names has as many confirmations as the contract wants, the sender's included, and the confirmation
  -- is in a block: the history of the users is as it was, and that of the contracts has the same
  -- transactions but for their owners. The number that the contract wants is below 2 ^ 63.
  pub confirm_parsed-paid :
      (contract : Multisig) (users : List Str) (now id : ℕ) (d : Draft) (v : Vault c t)
      (r : Draft × Vault c t × List Str)
      → contract.confirmations < 2 ^ 63
      → confirm_parsed c t contract users now (parsed id) d v ≡ some r
      → IsUnpaid v r.1 ⊎ HasEnough contract now id d v
  unfolding confirm_parsed confirm_searched confirm_found UnpaidReading
  confirm_parsed-paid contract users now id d v r small e =
      by_answer (t.find_one (is_submit_of id d.ms.contract) v.multisig_txs) refl e
    where
      by_part :
          (origin : TransactionEth) (part : Option MultisigTx)
          → find (is_submit_of id d.ms.contract) (t.docs v.multisig_txs) ≡ some origin
          → origin.multisig ≡ part
          → confirm_found c t contract users now id origin part d v ≡ some r
          → IsUnpaid v r.1 ⊎ HasEnough contract now id d v
      by_part origin none found has e' = absurd (cc e')
      by_part origin (some part) found has e' =
          elim (Bool-cases (is_reached contract (confirm_owners d.tx now part.owners) d.tx)) [
            | inr low ↦ inl (confirm_found-IsUnpaid contract users now id origin part d v r low e')
            | inl high ↦
                let enough =
                  is_reached-enough contract (confirm_owners d.tx now part.owners) d.tx small
                    high in
                inr (origin, part, found, has, enough.0, enough.1)
          ]

      by_answer :
          (a : Answer TransactionEth)
          → t.find_one (is_submit_of id d.ms.contract) v.multisig_txs ≡ a
          → confirm_searched c t contract users now id a d v ≡ some r
          → IsUnpaid v r.1 ⊎ HasEnough contract now id d v
      by_answer (ok origin) read e' =
          by_part origin origin.multisig
            (t.find_one_ok (is_submit_of id d.ms.contract) v.multisig_txs origin read) refl e'
      by_answer not_found read e' = inl (subst (UnpaidReading v) e' (refl, refl))
      by_answer (failed why) read e' = inl (subst (UnpaidReading v) e' (refl, refl))
