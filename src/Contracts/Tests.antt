-- ===== src/Contracts/Tests.antt =====
-- The theorems on contracts, on a contract of carol and dave that wants two confirmations.
use multy_back.Prelude.{
  ℕ, All, length, ◌≡◌, refl, sym, subst, ap, ◌⊎◌, true, false, none, some, List, [], ◌∷◌, ◌++◌,
  codes, Str, str_eq, find, arith, to_lower, replicate, i64_gt,
}
use multy_back.Store.Schemas.{
  User, Multisig, MultisigTx, OwnerHistory, TransactionEth, empty_multisig, wallet_ok,
}
use multy_back.Store.Collection.{modify, modify_all}
use multy_back.Store.Memory.{found, memory_update}
use multy_back.Store.Multisigs.{has_address, has_invite, is_invite, is_user}
use multy_back.Store.Queries.{put_entry, has_key}
use multy_back.Store.Pointwise.{Related}
use multy_back.Calldata.{submit_transaction, confirm_transaction, parse_submit_input, parsed}
use multy_back.Calldata.Submit.{encode_submit, parse_submit_input-encode_submit}
use multy_back.Contracts.Owners.{new_owner}
use multy_back.Contracts.Internal.{Draft}
use multy_back.Contracts.Requests.{
  is_submit_of, is_request, part_is_request, part_is_submit, confirm_owners, count_confirmed,
  set_owners, confirmed_by, is_reached, mark_failed,
}
use multy_back.Contracts.Confirm.{confirm_found, confirm_searched, confirm_parsed}
use multy_back.Contracts.Process.{parse_multisig_input}
use multy_back.Contracts.Deploy.{
  Ranged, NodeMultisig, ms_to_user_data, fetch_invite_undeployed, add_multisig,
}
use multy_back.Contracts.Threshold.{IsUnpaid, HasEnough, confirm_parsed-paid}
use multy_back.Contracts.Repeat.{users_store, tx_store, MemoryVault}
use multy_back.Contracts.Again.{IsPayable, IsPayment, reported, confirm_parsed-pays_each}
use multy_back.Contracts.Entered.{Entered, parse_multisig_input-Entered}
use multy_back.Contracts.Frame.{SameBut, add_multisig-SameBut}

abbrev some_address : Str
some_address = replicate 40 b'A'

abbrev zero_word : Str
zero_word = replicate 64 b'0'

abbrev input : Str
input = encode_submit some_address 1000 zero_word zero_word []

abbrev receiver : User
receiver = record {
  user_id = codes "erin";
  seed_phrase_type = 0;
  devices = [];
  wallets =
      record {
        currency_id = 60;
        network_id = 1;
        wallet_index = 0;
        wallet_name = [];
        last_action_time = 0;
        date_of_creation = 0;
        addresses =
            record {
              address_index = 0;
              address = codes "0x" ++ to_lower some_address;
              last_action_time = 0;
            }
            ∷ [];
        status = wallet_ok;
        is_imported = false;
        broken_status = 0;
      }
      ∷ [];
  multisigs = [];
}

abbrev submitted : MultisigTx
submitted = record {
  contract = codes "0xc";
  method_invoked = submit_transaction;
  input = input;
  invocation_status = true;
  request_id = 7;
  return_value = [];
  owners = new_owner (codes "0xa") ∷ new_owner (codes "0xd") ∷ [];
  confirmed = false;
}

abbrev request : TransactionEth
request = record {
  user_id = [];
  wallet_index = 0;
  address_index = 0;
  hash = codes "0x1";
  sender = codes "0xc";
  receiver = codes "0x" ++ to_lower some_address;
  amount = codes "1000";
  gas_price = 1;
  gas_limit = 21000;
  nonce = 0;
  status = 6;
  block_time = 1400;
  pool_time = 0;
  block_height = 77;
  confirmations = 0;
  is_internal = false;
  multisig = some submitted;
}

-- A confirmation by carol.
abbrev confirmation : Draft
confirmation = record {
  tx = record request {
    hash = codes "0x2";
    sender = codes "0xa";
    receiver = codes "0xc";
    status = 2;
    multisig = none;
  };
  ms = record submitted { method_invoked = confirm_transaction; owners = [] };
}

abbrev contract : Multisig
contract = record empty_multisig { contract_address = codes "0xc"; confirmations = 2 }

abbrev books : MemoryVault
books = record { users = receiver ∷ []; multisig_txs = request ∷ []; txs = [] }

abbrev one_confirmed : List OwnerHistory
one_confirmed = confirmed_by confirmation.tx 1500 ∷ new_owner (codes "0xd") ∷ []

-- The first of two confirmations.
abbrev first_outcome : Draft × MemoryVault × List Str
first_outcome = (
  confirmation,
  record books {
    multisig_txs =
        record request { multisig = some (record submitted { owners = one_confirmed }) } ∷ [];
  },
  [],
)

first_runs :
    confirm_parsed users_store tx_store contract [] 1500 (parsed 7) confirmation books
    ≡ some first_outcome
unfolding confirm_parsed confirm_searched confirm_found is_submit_of part_is_request part_is_submit
    is_request confirm_owners set_owners is_reached count_confirmed mark_failed found modify_all
    str_eq i64_gt
first_runs = refl

confirm_parsed-paid_example :
    IsUnpaid users_store tx_store books first_outcome.1
    ⊎ HasEnough users_store tx_store contract 1500 7 confirmation books
confirm_parsed-paid_example =
    confirm_parsed-paid users_store tx_store contract [] 1500 7 confirmation books first_outcome
      (omega arith) first_runs

known : find (has_address (parse_submit_input input).0) (receiver ∷ []) ≡ some receiver
unfolding has_address str_eq to_lower
known =
    subst (λ a. find (has_address a) (receiver ∷ []) ≡ some receiver)
      (sym (
        ap (λ q. q.0)
          (parse_submit_input-encode_submit some_address 1000 zero_word zero_word [] refl
            (omega arith) (omega arith) refl (omega arith) refl (omega arith)).0))
      refl

other_hash : str_eq (codes "0x2") (codes "0x1") ≡ false
unfolding str_eq
other_hash = refl

-- A contract that wants one confirmation, which carol's is.
abbrev eager : Multisig
eager = record contract { confirmations = 1 }

abbrev target : Str
target = (parse_submit_input input).0

asked : find (is_submit_of 7 (codes "0xc")) books.multisig_txs ≡ some request
unfolding is_submit_of is_request part_is_request part_is_submit str_eq
asked = refl

enough :
    (now : ℕ)
    → is_reached eager (confirm_owners confirmation.tx now submitted.owners) confirmation.tx ≡ true
unfolding is_reached count_confirmed confirm_owners str_eq i64_gt
enough now = refl

books-IsPayable : IsPayable eager [] 7 confirmation target books
books-IsPayable = record {
  origin = request;
  part = submitted;
  receiver = receiver;
  asked = asked;
  has = refl;
  goal = refl;
  enough = enough;
  known = known;
  unpaid = refl;
  other = other_hash;
}

confirm_parsed-pays_each_example :
    (v : MemoryVault) × (paid : List TransactionEth) × (reported eager [] 7 confirmation target
        (1500 ∷ 1600 ∷ [])
        books
      ≡ some v)
    × (v.txs ≡ paid)
    × (length paid ≡ 2)
    × All (IsPayment eager [] 7 confirmation target) paid
confirm_parsed-pays_each_example =
    confirm_parsed-pays_each eager [] 7 confirmation target (1500 ∷ 1600 ∷ []) books books-IsPayable

-- The submission itself, before it is in a block.
abbrev submission : Draft
submission = record {
  tx = record confirmation.tx { hash = codes "0x1"; status = 1; block_time = 0; block_height = 0 };
  ms = submitted;
}

parse_multisig_input-Entered_example :
    (r : Draft) × (parse_multisig_input users_store tx_store 1 1500 submission books
      ≡ some (r, books, []))
    × Entered users_store tx_store 1 1500 some_address 1000 submission books r
parse_multisig_input-Entered_example =
    parse_multisig_input-Entered users_store tx_store 1 1500 some_address 1000 zero_word zero_word
      [] submission books refl (omega arith) (omega arith) refl (omega arith) refl (omega arith)
      refl refl

abbrev deployment : NodeMultisig
deployment = record {
  confirmations = 2;
  contract = codes "0xc";
  tx_of_creation = codes "0x9";
  factory_address = codes "0xf";
  deploy_status = 5;
  addresses = (codes "0x" ++ to_lower some_address) ∷ [];
}

-- Erin has a multisig that waits for its contract, of whose owners the node reports the one.
abbrev waiting : Multisig
waiting = record empty_multisig {
  invite_code = codes "k";
  owners_count = 1;
  owners =
      record {
        user_id = codes "erin";
        address = codes "0x" ++ to_lower some_address;
        associated = true;
        creator = true;
        wallet_index = 0;
        address_index = 0;
      }
      ∷ [];
}

abbrev owner : User
owner = record receiver { multisigs = waiting ∷ empty_multisig ∷ [] }

abbrev as_listed : Ranged
as_listed users = users

abbrev deployed_owner : User
deployed_owner = record owner {
  multisigs =
      record waiting {
        confirmations = 2;
        contract_address = codes "0xc";
        tx_of_creation = codes "0x9";
        factory_address = codes "0xf";
        last_action_time = 1500;
        deploy_status = 5;
      }
      ∷ empty_multisig
      ∷ [];
}

code_found :
    fetch_invite_undeployed as_listed
      (ms_to_user_data users_store deployment.addresses (owner ∷ []))
    ≡ codes "k"
unfolding fetch_invite_undeployed ms_to_user_data has_address found str_eq to_lower put_entry
    has_key
code_found = refl

is_deployed :
    (add_multisig users_store as_listed as_listed deployment 1 1500 (owner ∷ [])).1
    ≡ deployed_owner ∷ []
unfolding add_multisig has_address found str_eq to_lower has_invite is_invite put_entry has_key
    memory_update is_user modify
is_deployed = refl

add_multisig-SameBut_example : Related (SameBut (codes "k")) (owner ∷ []) (deployed_owner ∷ [])
add_multisig-SameBut_example =
    subst (λ us. Related (SameBut (codes "k")) (owner ∷ []) us) is_deployed
      (subst
        (λ code.
          Related (SameBut code) (owner ∷ [])
            (add_multisig users_store as_listed as_listed deployment 1 1500 (owner ∷ [])).1)
        code_found
        (add_multisig-SameBut users_store as_listed as_listed deployment 1 1500 (owner ∷ [])))
