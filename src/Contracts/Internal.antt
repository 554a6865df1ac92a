-- ===== src/Contracts/Internal.antt =====
-- The payment that a contract makes when enough owners have confirmed it, as a transaction of the
-- receiver: a wallet of a user, or another contract. Go's pointers are shared, so a transaction is kept
-- apart from its multisig part, which several may point to.
use multy_back.Prelude.{
  ℕ, Bool, true, false, Option, none, some, List, [], ◌∷◌, if◌then◌else◌, Str, str_eq,
}
use multy_back.Store.Schemas.{
  Address, Wallet, User, Multisig, MultisigTx, TransactionEth, tx_in_block_confirmed_incoming,
}
use multy_back.Store.Collection.{Answer, ok, not_found, failed, Collection}
use multy_back.Store.Multisigs.{has_address}
use multy_back.Calldata.{execute_transaction}
use multy_back.Contracts.Owners.{is_contract, has_contract}

-- A transaction and its multisig part.
pub record Draft : Type 0 where
  pub tx : TransactionEth
  pub ms : MultisigTx

-- The document that is written of it.
abbrev pub document : Draft → TransactionEth
document d = record d.tx { multisig = some d.ms }

-- What a payment is: the contract that pays, the receiver, the amount, the status and the time.
pub record Payment : Type 0 where
  pub payer : Multisig
  pub target : Str
  pub amount : Str
  pub status : ℕ
  pub now : ℕ

unfoldable pub pay_wallet : Payment → Str → Wallet → Address → Draft → Draft
pay_wallet p user w x d = record {
  tx = record d.tx {
    sender = p.payer.contract_address;
    receiver = x.address;
    pool_time = p.now;
    user_id = user;
    wallet_index = w.wallet_index;
    address_index = x.address_index;
    amount = p.amount;
    status = p.status;
    is_internal = true;
  };
  ms = record d.ms { method_invoked = execute_transaction };
}

-- The first address of a wallet that is the receiver; the `break` ends this loop alone.
unfoldable pub pay_addresses : Payment → Str → Wallet → List Address → Draft × Bool → Draft × Bool
unfolding pay_wallet
pay_addresses p user w [] d = d
pay_addresses p user w (x ∷ xs) d =
    let rest = pay_addresses p user w xs d in
    if str_eq x.address p.target then (pay_wallet p user w x d.0, true) else rest

unfoldable pub pay_wallets : Payment → Str → List Wallet → Draft × Bool → Draft × Bool
unfolding pay_addresses
pay_wallets p user [] d = d
pay_wallets p user (w ∷ ws) d = pay_wallets p user ws (pay_addresses p user w w.addresses d)

-- The payment to a contract of a user: `method` is what is noted as invoked.
unfoldable pub pay_contract : Payment → Str → Multisig → Draft → Draft
pay_contract p method m d = record {
  tx = record d.tx {
    sender = p.payer.contract_address;
    receiver = m.contract_address;
    pool_time = p.now;
    amount = p.amount;
    status = p.status;
    is_internal = true;
  };
  ms = record d.ms { method_invoked = method; contract = m.contract_address };
}

unfoldable pub pay_contracts : Payment → Str → List Multisig → Draft → Option Draft
unfolding pay_contract is_contract
pay_contracts p method [] d = none
pay_contracts p method (m ∷ ms) d =
    let rest = pay_contracts p method ms d in
    if is_contract p.target m then some (pay_contract p method m d) else rest

-- `One(&user)`: where it fails, the variable keeps what it was.
unfoldable pub read_into : Answer User → User → User
read_into (ok user) before = user
read_into not_found before = before
read_into (failed why) before = before

abbrev pub nobody : User
nobody = record { user_id = []; seed_phrase_type = 0; devices = []; wallets = []; multisigs = [] }

module _ (c : Collection User) (t : Collection TransactionEth) where
  -- The collections of one network.
  pub record Vault : Type 0 where
    pub users : c.State
    pub multisig_txs : t.State
    pub txs : t.State

  abbrev pub insert_tx : TransactionEth → Vault → Vault
  insert_tx d v = record v { txs = (t.insert d v.txs).1 }

  abbrev pub insert_multisig_tx : TransactionEth → Vault → Vault
  insert_multisig_tx d v = record v { multisig_txs = (t.insert d v.multisig_txs).1 }

  -- The user that the second search leaves in the variable.
  unfoldable pub receiver_user : Payment → Vault → User × User
  unfolding read_into
  receiver_user p v =
      let first = read_into (c.find_one (has_address p.target) v.users) nobody in
      (first, read_into (c.find_one (has_contract p.target) v.users) first)

  -- `confirmTransaction`: the payment is the confirmation itself, changed in place.
  abbrev pub after_confirm : Draft → Option Draft → Vault → Draft × Vault
  after_confirm d none v = (d, v)
  after_confirm d (some d') v = (d', insert_multisig_tx (document d') v)

  unfoldable pub confirm_internal : Payment → Str → Draft → Vault → Draft × Vault
  unfolding pay_wallets pay_contracts receiver_user
  confirm_internal p method d v =
      let us = receiver_user p v in
      let paid = pay_wallets p us.0.user_id us.0.wallets (d, false) in
      after_confirm paid.0 (pay_contracts p method us.1.multisigs paid.0)
        (if paid.1 then insert_tx (document paid.0) v else v)

  -- `submitTransaction`: the payment is a copy that shares the multisig part. The copy loses that part
  -- where it has been paid to a wallet, and a payment to a contract then panics: `none`.
  abbrev pub after_submit : MultisigTx → Bool → Option Draft → Vault → Option (MultisigTx × Vault)
  after_submit ms detached none v = some (ms, v)
  after_submit ms true (some d) v = none
  after_submit ms false (some d) v = some (d.ms, insert_multisig_tx (document d) v)

  unfoldable pub submit_internal : Payment → Str → Draft → Vault → Option (MultisigTx × Vault)
  unfolding pay_wallets pay_contracts receiver_user
  submit_internal p method d v =
      let us = receiver_user p v in
      let copy = record d {
        tx = record d.tx { sender = p.payer.contract_address; receiver = p.target };
      } in
      let paid = pay_wallets p us.0.user_id us.0.wallets (copy, false) in
      let p' = record p { status = tx_in_block_confirmed_incoming } in
      after_submit paid.0.ms paid.1 (pay_contracts p' method us.1.multisigs paid.0)
        (if paid.1 then insert_tx (record paid.0.tx { multisig = none }) v else v)
