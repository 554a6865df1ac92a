-- ===== src/Contracts/Process.antt =====
-- `revokeConfirmation` and the dispatch on the method in `ParseMultisigInput`, and `processMultisig`.
use multy_back.Prelude.{
  ℕ, ◌&&◌, Option, none, some, List, [], ◌==◌, if◌then◌else◌, Str, str_eq, codes, map, ◌>>=◌,
}
use multy_back.Currencies.{ether}
use multy_back.Store.Schemas.{
  User, Multisig, TransactionEth, tx_appeared_in_block_incoming, tx_in_block_confirmed_outcoming,
}
use multy_back.Store.Collection.{Answer, ok, not_found, failed, Collection}
use multy_back.Calldata.{
  submit_transaction, confirm_transaction, revoke_confirmation, fetch_method, Parsed, parsed,
  bad_input, low_len, panic, parse_revoke_input, confirm_request_id,
}
use multy_back.Ether.Save.{is_incoming}
use multy_back.Contracts.Owners.{fetch_contract_owners, find_contract_owners, fetch_multisig}
use multy_back.Contracts.Internal.{Draft, document, Vault}
use multy_back.Contracts.Requests.{
  has_hash, is_request, revoke_owners, set_owners, renew_multisig, Reading, mark_failed, told,
}
use multy_back.Contracts.Submit.{parse_submit}
use multy_back.Contracts.Confirm.{confirm_parsed}

module _ (c : Collection User) (t : Collection TransactionEth) where
  abbrev pub sender_of : Answer TransactionEth → Str
  sender_of (ok d) = d.sender
  sender_of not_found = []
  sender_of (failed why) = []

  -- The owners of the revocation are taken away before they are gone over.
  unfoldable pub revoke_parsed : Multisig → ℕ → Parsed → Draft → Vault c t → Reading c t
  unfolding is_request set_owners revoke_owners mark_failed
  revoke_parsed contract now (parsed id) d v =
      let sel = is_request id contract.contract_address in
      let d' = record d { ms = record d.ms { owners = [] } } in
      let origin = sender_of (t.find_one sel v.multisig_txs) in
      told c t [] (
        mark_failed c t d' (record v {
          multisig_txs =
              (t.update_all sel (set_owners (revoke_owners origin d.tx now d'.ms.owners))
                v.multisig_txs).1;
        }))
  revoke_parsed contract now bad_input d v =
      told c t [] (mark_failed c t (record d { ms = record d.ms { owners = [] } }) v)
  revoke_parsed contract now low_len d v =
      told c t [] (mark_failed c t (record d { ms = record d.ms { owners = [] } }) v)
  revoke_parsed contract now panic d v = none

  unfoldable pub dispatch_method : Multisig → List Str → ℕ → Draft → Vault c t → Reading c t
  unfolding parse_submit confirm_parsed revoke_parsed mark_failed
  dispatch_method contract users now d v =
      if str_eq d.ms.method_invoked submit_transaction
      then parse_submit c t contract users now d v
      else if str_eq d.ms.method_invoked confirm_transaction
      then confirm_parsed c t contract users now (confirm_request_id d.ms.input) d v
      else if str_eq d.ms.method_invoked revoke_confirmation
      then revoke_parsed contract now (parse_revoke_input d.ms.input) d v
      else if str_eq d.ms.method_invoked (codes "0x")
      then told c t [] (mark_failed c t d v)
      else some (d, v, [])

  unfoldable pub parse_multisig_input : ℕ → ℕ → Draft → Vault c t → Reading c t
  unfolding dispatch_method fetch_contract_owners find_contract_owners fetch_multisig fetch_method
  parse_multisig_input network now d v =
      let d' = record d {
        ms = record d.ms {
          owners = fetch_contract_owners c ether network d.ms.contract v.users;
          method_invoked = fetch_method d.ms.input;
        };
      } in
      let users = find_contract_owners c d.tx.receiver v.users in
      dispatch_method (fetch_multisig users d.tx.receiver) (map (λ (u : User). u.user_id) users) now
        d' v

  -- A submission in a block counts as confirmed and outgoing.
  unfoldable pub settle_status : Draft → Draft
  settle_status d =
      if str_eq d.ms.method_invoked submit_transaction
        && d.tx.status == tx_appeared_in_block_incoming
      then record d { tx = record d.tx { status = tx_in_block_confirmed_outcoming } }
      else d

  -- What `processMultisig` returns: the method and the error of its write.
  pub record Processed : Type 0 where
    pub method : Str
    pub error : Answer (Unit {0})
    pub draft : Draft
    pub vault : Vault c t
    pub told_users : List Str

  unfoldable pub store_parsed :
      Answer TransactionEth → Str → Draft × Vault c t × List Str → Processed
  unfolding settle_status renew_multisig has_hash
  store_parsed not_found hash (d, v, users) =
      let d' = settle_status d in
      let r = t.insert (document d') v.multisig_txs in
      record {
        method = [];
        error = r.0;
        draft = d';
        vault = record v { multisig_txs = r.1 };
        told_users = users;
      }
  store_parsed (failed why) hash (d, v, users) = record {
    method = [];
    error = failed why;
    draft = settle_status d;
    vault = v;
    told_users = users;
  }
  store_parsed (ok found) hash (d, v, users) =
      let d' = settle_status d in
      let r = t.update (has_hash hash) (renew_multisig d') v.multisig_txs in
      record {
        method = d'.ms.method_invoked;
        error = r.0;
        draft = d';
        vault = record v { multisig_txs = r.1 };
        told_users = users;
      }

  unfoldable pub process_multisig : ℕ → ℕ → Draft → Vault c t → Option Processed
  unfolding parse_multisig_input store_parsed
  process_multisig network now d v =
      let d' = record d { ms = record d.ms { contract = d.tx.receiver } } in
      if is_incoming d.tx.status
      then (parse_multisig_input network now d' v)
        >>= (λ r. some (store_parsed (t.find_one (has_hash d.tx.hash) v.multisig_txs) d.tx.hash r))
      else some (record { method = []; error = ok tt; draft = d'; vault = v; told_users = [] })
