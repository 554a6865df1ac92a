-- ===== src/Contracts/Repeat.antt =====
-- The payment that a report of the confirmation which completes a request makes.
use multy_back.Prelude.{
  ℕ, ◌≡◌, refl, sym, subst, ◌∙◌, Bool, true, false, ◌||◌, Option, none, some, List, [], ◌∷◌, ◌++◌,
  arith, find-test, any-find, Bool-cases, inl, inr, find, any, Str, str_eq, str_eq_iff,
  if◌then◌else◌,
}
use multy_back.Store.Schemas.{
  Address, Wallet, User, Multisig, MultisigTx, OwnerHistory, TransactionEth,
  tx_in_block_confirmed_incoming,
}
use multy_back.Store.Collection.{Collection}
use multy_back.Store.Memory.{memory, found}
use multy_back.Store.Members.{any-append-absent}
use multy_back.Store.Multisigs.{has_address}
use multy_back.Calldata.{parse_submit_input, submit_transaction}
use multy_back.Contracts.Internal.{
  Draft, document, Payment, Vault, pay_wallet, pay_addresses, pay_wallets, pay_contracts, read_into,
  receiver_user, confirm_internal, after_confirm, insert_tx,
}
use multy_back.Contracts.Requests.{has_hash, is_internal_of, set_confirmed}
use multy_back.Contracts.Confirm.{confirm_read, execute}

-- A draft that has been paid, if the flag says so, is internal and goes to the target.
record IsPaid (p : Payment) (hash : Str) (d : Draft × Bool) : Type 0 where
  kept : d.0.tx.hash ≡ hash
  internal : d.1 ≡ true → d.0.tx.is_internal ≡ true
  goal : d.1 ≡ true → d.0.tx.receiver ≡ p.target

pay_addresses-IsPaid :
    (p : Payment) (hash user : Str) (w : Wallet) (xs : List Address) (d : Draft × Bool)
    → IsPaid p hash d
    → IsPaid p hash (pay_addresses p user w xs d)
unfolding pay_addresses pay_wallet
pay_addresses-IsPaid p hash user w [] d h = h
pay_addresses-IsPaid p hash user w (x ∷ xs) d h = elim (Bool-cases (str_eq x.address p.target)) [
  | inr past ↦ rw past (pay_addresses-IsPaid p hash user w xs d h)
  | inl here ↦ rw here (record {
    kept = h.kept;
    internal = λ e. refl;
    goal = λ e. (str_eq_iff x.address p.target).0 here;
  })
]

pay_wallets-IsPaid :
    (p : Payment) (hash user : Str) (ws : List Wallet) (d : Draft × Bool)
    → IsPaid p hash d
    → IsPaid p hash (pay_wallets p user ws d)
unfolding pay_wallets
pay_wallets-IsPaid p hash user [] d h = h
pay_wallets-IsPaid p hash user (w ∷ ws) d h =
    pay_wallets-IsPaid p hash user ws (pay_addresses p user w w.addresses d)
      (pay_addresses-IsPaid p hash user w w.addresses d h)

pay_addresses-flag :
    (p : Payment) (user : Str) (w : Wallet) (xs : List Address) (d : Draft × Bool)
    → (any (λ (x : Address). str_eq x.address p.target) xs || d.1) ≡ true
    → (pay_addresses p user w xs d).1 ≡ true
unfolding pay_addresses
pay_addresses-flag p user w [] d h = h
pay_addresses-flag p user w (x ∷ xs) d h = ground (arith, pay_addresses-flag p user w xs d)

pay_addresses-keeps :
    (p : Payment) (user : Str) (w : Wallet) (xs : List Address) (d : Draft × Bool)
    → d.1 ≡ true
    → (pay_addresses p user w xs d).1 ≡ true
unfolding pay_addresses
pay_addresses-keeps p user w [] d h = h
pay_addresses-keeps p user w (x ∷ xs) d h = ground (arith, pay_addresses-keeps p user w xs d)

pay_wallets-keeps :
    (p : Payment) (user : Str) (ws : List Wallet) (d : Draft × Bool)
    → d.1 ≡ true
    → (pay_wallets p user ws d).1 ≡ true
unfolding pay_wallets
pay_wallets-keeps p user [] d h = h
pay_wallets-keeps p user (w ∷ ws) d h =
    pay_wallets-keeps p user ws (pay_addresses p user w w.addresses d)
      (pay_addresses-keeps p user w w.addresses d h)

-- A user with the address is paid.
pay_wallets-flag :
    (p : Payment) (user : Str) (ws : List Wallet) (d : Draft × Bool)
    → any (λ (w : Wallet). any (λ (x : Address). str_eq x.address p.target) w.addresses) ws ≡ true
    → (pay_wallets p user ws d).1 ≡ true
unfolding pay_wallets
pay_wallets-flag p user [] d h = absurd (cc)
pay_wallets-flag p user (w ∷ ws) d h =
    elim (Bool-cases (any (λ (x : Address). str_eq x.address p.target) w.addresses)) [
      | inl here ↦
          pay_wallets-keeps p user ws (pay_addresses p user w w.addresses d)
            (pay_addresses-flag p user w w.addresses d (ground arith))
      | inr past ↦ pay_wallets-flag p user ws (pay_addresses p user w w.addresses d) (ground arith)
    ]

abbrev pub users_store : Collection User
users_store = memory User

abbrev pub tx_store : Collection TransactionEth
tx_store = memory TransactionEth

abbrev pub MemoryVault : Type 0
MemoryVault = Vault users_store tx_store

-- A payment to a wallet of the user stands last in the history of the users: an internal transaction
-- to the target, under the hash of the confirmation.
abbrev pub PaysOnce : Str → Str → MemoryVault → MemoryVault → Type 0
PaysOnce hash target v v' =
    (x : TransactionEth) × (v'.txs ≡ v.txs ++ x ∷ [])
    × (x.is_internal ≡ true)
    × (x.hash ≡ hash)
    × (x.receiver ≡ target)

after_confirm-txs :
    (d : Draft) (o : Option Draft) (v : MemoryVault)
    → (after_confirm users_store tx_store d o v).1.txs ≡ v.txs
after_confirm-txs d none v = refl
after_confirm-txs d (some d') v = refl

confirm_internal-PaysOnce :
    (p : Payment) (method : Str) (d : Draft) (v : MemoryVault) (u : User)
    → find (has_address p.target) v.users ≡ some u
    → PaysOnce d.tx.hash p.target v (confirm_internal users_store tx_store p method d v).1
unfolding confirm_internal receiver_user
confirm_internal-PaysOnce p method d v u e =
    (document paid.0, stands, is_paid.internal flag, is_paid.kept, is_paid.goal flag)
  where
    us : User × User
    us = receiver_user users_store tx_store p v

    same_user : us.0 ≡ u
    same_user = (unfold receiver_user read_into found in rw e refl)

    paid : Draft × Bool
    paid = pay_wallets p us.0.user_id us.0.wallets (d, false)

    start : IsPaid p d.tx.hash (d, false)
    start = record { kept = refl; internal = λ e'. cc; goal = λ e'. cc }

    is_paid : IsPaid p d.tx.hash paid
    is_paid = pay_wallets-IsPaid p d.tx.hash us.0.user_id us.0.wallets (d, false) start

    holds : has_address p.target us.0 ≡ true
    holds =
        subst (λ x. has_address p.target x ≡ true) (sym same_user)
          (find-test (has_address p.target) v.users u e)

    flag : paid.1 ≡ true
    flag = pay_wallets-flag p us.0.user_id us.0.wallets (d, false) (unfold has_address in holds)

    stands :
        (confirm_internal users_store tx_store p method d v).1.txs ≡ v.txs ++ document paid.0 ∷ []
    stands =
        after_confirm-txs paid.0 (pay_contracts p method us.1.multisigs paid.0)
          (if paid.1 then insert_tx users_store tx_store (document paid.0) v else v)
        ∙ rw flag refl

-- Where the database works, a confirmation that completes a request to a user, none of whose payments
-- is found under its hash, pays the user, and leaves the search that is to keep it from paying again
-- with nothing to find, if its own hash is another.
pub execute-pays_again :
    (contract : Multisig) (told : List Str) (origin : TransactionEth) (part : MultisigTx)
    (owners : List OwnerHistory) (now : ℕ) (d : Draft) (v : MemoryVault) (u : User)
    → find (has_address (parse_submit_input part.input).0) v.users ≡ some u
    → any (is_internal_of origin.hash) v.txs ≡ false
    → str_eq d.tx.hash origin.hash ≡ false
    → PaysOnce d.tx.hash
        (parse_submit_input part.input).0
        v
        (execute users_store tx_store contract told origin part owners now d v).1
      × (any
            (is_internal_of origin.hash)
            (execute users_store tx_store contract told origin part owners now d v).1.txs
          ≡ false)
unfolding execute confirm_read
execute-pays_again contract told origin part owners now d v u receiver unpaid other = (
  subst (λ b. PaysOnce d.tx.hash target v b) (sym result) pays,
  subst (λ (b : MemoryVault). any (is_internal_of origin.hash) b.txs ≡ false) (sym result)
      (subst (λ xs. any (is_internal_of origin.hash) xs ≡ false) (sym pays.1)
        (any-append-absent (is_internal_of origin.hash) v.txs (pays.0 ∷ []) unpaid last)),
)
  where
    target : Str
    target = (parse_submit_input part.input).0

    v' : MemoryVault
    v' = record v {
      multisig_txs =
          (tx_store.update_all (has_hash origin.hash) (set_confirmed owners) v.multisig_txs).1;
    }

    sure : Draft
    sure = record d { ms = record d.ms { confirmed = true } }

    p : Payment
    p = record {
      payer = contract;
      target = target;
      amount = (parse_submit_input part.input).1;
      status = tx_in_block_confirmed_incoming;
      now = now;
    }

    result :
        (execute users_store tx_store contract told origin part owners now d v).1
        ≡ (confirm_internal users_store tx_store p submit_transaction sure v').1
    result =
        (unfold execute confirm_read found in
          rw (any-find (is_internal_of origin.hash) v.txs unpaid) refl)

    pays :
        PaysOnce d.tx.hash target v
          (confirm_internal users_store tx_store p submit_transaction sure v').1
    pays = confirm_internal-PaysOnce p submit_transaction sure v' u receiver

    last : any (is_internal_of origin.hash) (pays.0 ∷ []) ≡ false
    last = (unfold is_internal_of has_hash in rw pays.3 (rw other refl))
