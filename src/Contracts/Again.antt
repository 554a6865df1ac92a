-- ===== src/Contracts/Again.antt =====
-- A confirmation that completes a request to a user, reported over and over.
use multy_back.Prelude.{
  find-append_found, ℕ, suc, ◌≡◌, refl, sym, subst, ap, ◌∙◌, Bool, true, false, ◌&&◌, Bool-cases,
  Option, none, some, List, [], ◌∷◌, ◌++◌, append-nil, append_assoc, All, length, arith, find, inl,
  inr, any, find-test, Str, str_eq, str_eq_refl, if◌then◌else◌, ◌>>=◌,
}
use multy_back.Store.Schemas.{
  User, Multisig, MultisigTx, OwnerHistory, TransactionEth, tx_in_block_confirmed_incoming,
}
use multy_back.Store.Collection.{Answer, ok, not_found, failed, modify_all}
use multy_back.Store.Memory.{found}
use multy_back.Store.Multisigs.{has_address}
use multy_back.Calldata.{parse_submit_input, submit_transaction, parsed}
use multy_back.Contracts.Internal.{
  Draft, Payment, document, insert_tx, pay_wallets, receiver_user, pay_contracts, confirm_internal,
  after_confirm,
}
use multy_back.Contracts.Requests.{
  has_hash, is_internal_of, is_submit_of, is_request, part_is_request, part_is_submit,
  confirm_owners, count_confirmed, is_reached, on_part, set_owners, set_confirmed, mark_failed,
}
use multy_back.Contracts.Confirm.{
  confirm_read, execute, confirm_found, confirm_searched, confirm_parsed,
}
use multy_back.Contracts.Threshold.{mark_failed-txs, mark_failed-multisig_txs}
use multy_back.Contracts.Repeat.{users_store, tx_store, MemoryVault, PaysOnce, execute-pays_again}

find-modify_all {ℓ} :
    {A : Type ℓ} (p q : A → Bool) (f : A → A) (xs : List A) (x : A)
    → ((y : A) → p (f y) ≡ p y)
    → find p xs ≡ some x
    → find p (modify_all q f xs) ≡ some (if q x then f x else x)
unfolding modify_all
find-modify_all p q f [] x same e = absurd (cc)
find-modify_all p q f (y ∷ ys) x same e = elim (Bool-cases (p y)) [
  | inl hit ↦
      let here : y ≡ x = ground (arith, hit) in
      subst
        (λ z. find p ((if q y then f y else y) ∷ modify_all q f ys) ≡ some (if q z then f z else z))
        here
        (elim (Bool-cases (q y)) [
          | inl chosen ↦ rw chosen (ground (arith, hit, same y))
          | inr passed ↦ rw passed (ground (arith, hit))
        ])
  | inr miss ↦
      let rest = find-modify_all p q f ys x same (ground (arith, miss)) in
      elim (Bool-cases (q y)) [
        | inl chosen ↦ rw chosen (ground (arith, miss, same y, rest))
        | inr passed ↦ rw passed (ground (arith, miss, rest))
      ]
]

confirm_owners-again :
    (tx : TransactionEth) (now later : ℕ) (os : List OwnerHistory)
    → count_confirmed (confirm_owners tx later (confirm_owners tx now os))
      ≡ count_confirmed (confirm_owners tx now os)
unfolding confirm_owners count_confirmed
confirm_owners-again tx now later [] = refl
confirm_owners-again tx now later (o ∷ os) = elim (Bool-cases (str_eq o.address tx.sender)) [
  | inl mine ↦
      rw (mine, str_eq_refl tx.sender) (ground (arith, confirm_owners-again tx now later os))
  | inr other ↦ rw (other, other) (ground (arith, confirm_owners-again tx now later os))
]

module _ (id : ℕ) (contract : Str) (os : List OwnerHistory) where
  set_owners-is_submit_of :
      (d : TransactionEth) → is_submit_of id contract (set_owners os d) ≡ is_submit_of id contract d
  unfolding is_submit_of is_request set_owners part_is_request part_is_submit
  set_owners-is_submit_of d = by_part d.multisig
    where
      by_part :
          (m : Option MultisigTx)
          → (part_is_request id contract (on_part (λ x. record x { owners = os }) m)
              && part_is_submit (on_part (λ x. record x { owners = os }) m))
            ≡ (part_is_request id contract m && part_is_submit m)
      by_part none = refl
      by_part (some m) = refl

  set_confirmed-is_submit_of :
      (d : TransactionEth)
      → is_submit_of id contract (set_confirmed os d) ≡ is_submit_of id contract d
  unfolding is_submit_of is_request set_confirmed part_is_request part_is_submit
  set_confirmed-is_submit_of d = by_part d.multisig
    where
      by_part :
          (m : Option MultisigTx)
          → (part_is_request id contract
                (on_part (λ x. record x { owners = os; confirmed = true }) m)
              && part_is_submit (on_part (λ x. record x { owners = os; confirmed = true }) m))
            ≡ (part_is_request id contract m && part_is_submit m)
      by_part none = refl
      by_part (some m) = refl

-- The users stay, and transactions of contracts are added at most.
abbrev Extends : MemoryVault → MemoryVault → Type 0
Extends v v' =
    (v'.users ≡ v.users)
    × ((more : List TransactionEth) × (v'.multisig_txs ≡ v.multisig_txs ++ more))

after_confirm-Extends :
    (is_paid : Bool) (x : TransactionEth) (d : Draft) (o : Option Draft) (v : MemoryVault)
    → Extends v
        (after_confirm users_store tx_store d o
          (if is_paid then insert_tx users_store tx_store x v else v)).1
after_confirm-Extends true x d none v = (refl, ([], sym (append-nil v.multisig_txs)))
after_confirm-Extends false x d none v = (refl, ([], sym (append-nil v.multisig_txs)))
after_confirm-Extends true x d (some d') v = (refl, (document d' ∷ [], refl))
after_confirm-Extends false x d (some d') v = (refl, (document d' ∷ [], refl))

confirm_internal-Extends :
    (p : Payment) (method : Str) (d : Draft) (v : MemoryVault)
    → Extends v (confirm_internal users_store tx_store p method d v).1
unfolding confirm_internal
confirm_internal-Extends p method d v =
    let us = receiver_user users_store tx_store p v in
    let paid = pay_wallets p us.0.user_id us.0.wallets (d, false) in
    after_confirm-Extends paid.1 (document paid.0) paid.0
      (pay_contracts p method us.1.multisigs paid.0) v

confirm_read-Extends :
    (contract : Multisig) (origin : TransactionEth) (part : MultisigTx) (now : ℕ)
    (a : Answer TransactionEth) (d : Draft) (v : MemoryVault)
    → Extends v (confirm_read users_store tx_store contract origin part now a d v).1
unfolding confirm_read
confirm_read-Extends contract origin part now (ok x) d v =
    (refl, ([], sym (append-nil v.multisig_txs)))
confirm_read-Extends contract origin part now (failed why) d v =
    (refl, ([], sym (append-nil v.multisig_txs)))
confirm_read-Extends contract origin part now not_found d v =
    confirm_internal-Extends
      (record {
        payer = contract;
        target = (parse_submit_input part.input).0;
        amount = (parse_submit_input part.input).1;
        status = tx_in_block_confirmed_incoming;
        now = now;
      })
      submit_transaction d v

execute-Extends :
    (contract : Multisig) (users : List Str) (origin : TransactionEth) (part : MultisigTx)
    (owners : List OwnerHistory) (now : ℕ) (d : Draft) (v : MemoryVault)
    → Extends
        (record v {
          multisig_txs = modify_all (has_hash origin.hash) (set_confirmed owners) v.multisig_txs;
        })
        (execute users_store tx_store contract users origin part owners now d v).1
unfolding execute
execute-Extends contract users origin part owners now d v =
    confirm_read-Extends contract origin part now (found (find (is_internal_of origin.hash) v.txs))
      _ _

mark_failed-users :
    (d : Draft) (v : MemoryVault) → (mark_failed users_store tx_store d v).1.users ≡ v.users
unfolding mark_failed
mark_failed-users d v = ground arith

module _ (contract : Multisig) (users : List Str) (id : ℕ) (d : Draft) (target : Str) where
  -- The confirmation, which is in a block, completes the request that it names, which is not its own
  -- transaction; the target of the request is an address of a user, and no payment stands under the
  -- request's hash.
  pub record IsPayable (v : MemoryVault) : Type 0 where
    pub origin : TransactionEth
    pub part : MultisigTx
    pub receiver : User
    pub asked : find (is_submit_of id d.ms.contract) v.multisig_txs ≡ some origin
    pub has : origin.multisig ≡ some part
    pub goal : (parse_submit_input part.input).0 ≡ target
    pub enough : (now : ℕ) → is_reached contract (confirm_owners d.tx now part.owners) d.tx ≡ true
    pub known : find (has_address target) v.users ≡ some receiver
    pub unpaid : any (is_internal_of origin.hash) v.txs ≡ false
    pub other : str_eq d.tx.hash origin.hash ≡ false

  module _ (now : ℕ) (v : MemoryVault) (h : IsPayable v) where
    owners : List OwnerHistory
    owners = confirm_owners d.tx now h.part.owners

    noted : MemoryVault
    noted = record v {
      multisig_txs = modify_all (is_submit_of id d.ms.contract) (set_owners owners) v.multisig_txs;
    }

    emptied : Draft
    emptied = record d { ms = record d.ms { owners = [] } }

    ran : Draft × MemoryVault × List Str
    ran = execute users_store tx_store contract users h.origin h.part owners now emptied noted

    outcome : Draft × MemoryVault
    outcome = mark_failed users_store tx_store ran.0 ran.1

    confirm_parsed-outcome :
        confirm_parsed users_store tx_store contract users now (parsed id) d v
        ≡ some (outcome.0, outcome.1, ran.2)
    unfolding confirm_parsed confirm_searched confirm_found outcome ran noted emptied owners found
    confirm_parsed-outcome =
        ap (λ o. confirm_searched users_store tx_store contract users now id (found o) d v) h.asked
        ∙ ap (λ m. confirm_found users_store tx_store contract users now id h.origin m d v) h.has
        ∙ rw (h.enough now) refl

    ran-paid :
        PaysOnce d.tx.hash target v ran.1 × (any (is_internal_of h.origin.hash) ran.1.txs ≡ false)
    unfolding ran noted emptied
    ran-paid =
        subst
          (λ a.
            PaysOnce d.tx.hash a v ran.1 × (any (is_internal_of h.origin.hash) ran.1.txs ≡ false))
          h.goal
          (execute-pays_again contract users h.origin h.part owners now emptied noted h.receiver
            (subst (λ a. find (has_address a) v.users ≡ some h.receiver) (sym h.goal) h.known)
            h.unpaid h.other)

    outcome-txs : outcome.1.txs ≡ ran.1.txs
    unfolding outcome
    outcome-txs = mark_failed-txs users_store tx_store ran.0 ran.1

    -- The request as the report leaves it.
    renewed : TransactionEth
    renewed = set_confirmed owners (set_owners owners h.origin)

    outcome-asked : find (is_submit_of id d.ms.contract) outcome.1.multisig_txs ≡ some renewed
    unfolding outcome ran noted renewed has_hash
    outcome-asked =
        let sel = is_submit_of id d.ms.contract in
        let rest = execute-Extends contract users h.origin h.part owners now emptied noted in
        let first =
          find-modify_all sel sel (set_owners owners) v.multisig_txs h.origin
            (set_owners-is_submit_of id d.ms.contract owners) h.asked in
        let hit : sel h.origin ≡ true = find-test sel v.multisig_txs h.origin h.asked in
        let set : find sel noted.multisig_txs ≡ some (set_owners owners h.origin) =
          first ∙ rw hit refl in
        let second =
          find-modify_all sel (has_hash h.origin.hash) (set_confirmed owners) noted.multisig_txs
            (set_owners owners h.origin) (set_confirmed-is_submit_of id d.ms.contract owners) set in
        let own : has_hash h.origin.hash (set_owners owners h.origin) ≡ true =
          unfold set_owners has_hash in str_eq_refl h.origin.hash in
        ap (find sel) (mark_failed-multisig_txs users_store tx_store ran.0 ran.1 ∙ rest.1.1)
        ∙ find-append_found sel _ rest.1.0 renewed (second ∙ rw own refl)

    outcome-users : outcome.1.users ≡ v.users
    unfolding outcome ran noted
    outcome-users =
        mark_failed-users ran.0 ran.1
        ∙ (execute-Extends contract users h.origin h.part owners now emptied noted).0

    reached_again : (later : ℕ) → is_reached contract (confirm_owners d.tx later owners) d.tx ≡ true
    unfolding is_reached owners
    reached_again later =
        rw (confirm_owners-again d.tx now later h.part.owners) (unfold is_reached in h.enough now)

    outcome-IsPayable : IsPayable outcome.1
    unfolding is_reached renewed set_confirmed set_owners
    outcome-IsPayable = record {
      origin = renewed;
      part = record h.part { owners = owners; confirmed = true };
      receiver = h.receiver;
      asked = outcome-asked;
      has =
          ap
            (λ m.
              on_part (λ x. record x { owners = owners; confirmed = true })
                (on_part (λ x. record x { owners = owners }) m))
            h.has;
      goal = h.goal;
      enough = λ later. reached_again later;
      known = ap (find (has_address target)) outcome-users ∙ h.known;
      unpaid =
          subst (λ xs. any (is_internal_of h.origin.hash) xs ≡ false) (sym outcome-txs) ran-paid.1;
      other = h.other;
    }

  -- The confirmation is reported at each of the times.
  abbrev pub reported : List ℕ → MemoryVault → Option MemoryVault
  reported [] v = some v
  reported (now ∷ nows) v = do
    r ← confirm_parsed users_store tx_store contract users now (parsed id) d v
    reported nows r.1

  -- A payment to the target by the confirmation.
  abbrev pub IsPayment : TransactionEth → Type 0
  IsPayment x = (x.is_internal ≡ true) × (x.hash ≡ d.tx.hash) × (x.receiver ≡ target)

  -- Where the database works, a confirmation that completes a request to a user pays the user each time
  -- that it is reported: after any number of reports the history of the users has as many internal
  -- transactions to the target more, all under the hash of the confirmation.
  pub confirm_parsed-pays_each :
      (nows : List ℕ) (v : MemoryVault)
      → IsPayable v
      → (v' : MemoryVault) × (paid : List TransactionEth) × (reported nows v ≡ some v')
        × (v'.txs ≡ v.txs ++ paid)
        × (length paid ≡ length nows)
        × All IsPayment paid
  confirm_parsed-pays_each [] v h = (v, [], refl, sym (append-nil v.txs), refl, tt)
  confirm_parsed-pays_each (now ∷ nows) v h =
      let (pays, unpaid) = ran-paid now v h in
      let (x, stands, internal, hash, receiver) = pays in
      let next = (outcome now v h).1 in
      let (v', paid, ran_on, more, long, all_paid) =
        confirm_parsed-pays_each nows next (outcome-IsPayable now v h) in
      (
        v',
        x ∷ paid,
        ap (λ o. o >>= (λ r. reported nows r.1)) (confirm_parsed-outcome now v h) ∙ ran_on,
        more
            ∙ ap (λ xs. xs ++ paid) (outcome-txs now v h ∙ stands)
            ∙ append_assoc v.txs (x ∷ []) paid,
        ap suc long,
        ((internal, hash, receiver), all_paid),
      )
