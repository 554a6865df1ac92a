-- ===== src/Socket/Fixture.antt =====
-- A small database in memory: Alice made a multisig for two, and Bob has a wallet.
use mathlib.Core.List.{Perm}
use mathlib.Core.List as L
use multy_back.Prelude.{true, false, List, [], ◌∷◌, Str, codes, some}
use multy_back.Store.Schemas.{
  Wallet, AddressExtended, Multisig, User, TransactionEth, waiting_for_join, wallet_ok,
}
use multy_back.Store.Collection.{Collection}
use multy_back.Store.Memory.{memory}
use multy_back.Socket.Messages.{Scene, MultisigMsg}
use multy_back.Socket.Capped.Owners.{IsScene}
use multy_back.Socket.Handler.{World}

abbrev pub users_memory : Collection User
users_memory = memory User

abbrev pub txs_memory : Collection TransactionEth
txs_memory = memory TransactionEth

abbrev pub scene : Scene
scene = record { online = λ u. true; now = 1500; ranged = λ owners. owners }

pub scene-IsScene : IsScene scene
scene-IsScene owners = L.Perm.rfl

abbrev wallet_at : Str → Wallet
wallet_at a = record {
  currency_id = 60;
  network_id = 4;
  wallet_index = 0;
  wallet_name = codes "savings";
  last_action_time = 0;
  date_of_creation = 0;
  addresses = record { address_index = 0; address = a; last_action_time = 0 } ∷ [];
  status = wallet_ok;
  is_imported = false;
  broken_status = 0;
}

abbrev pub alice_owner : AddressExtended
alice_owner = record {
  user_id = codes "alice";
  address = codes "0xa";
  associated = true;
  creator = true;
  wallet_index = 0;
  address_index = 0;
}

abbrev pub for_two : Multisig
for_two = record {
  currency_id = 60;
  network_id = 4;
  confirmations = 2;
  wallet_name = codes "ours";
  factory_address = [];
  contract_address = codes "0xc";
  tx_of_creation = [];
  last_action_time = 0;
  date_of_creation = 0;
  owners = alice_owner ∷ [];
  deploy_status = waiting_for_join;
  status = wallet_ok;
  invite_code = codes "code";
  owners_count = 2;
  imported = false;
}

abbrev pub alice : User
alice = record {
  user_id = codes "alice";
  seed_phrase_type = 0;
  devices = [];
  wallets = wallet_at (codes "0xa") ∷ [];
  multisigs = for_two ∷ [];
}

abbrev pub bob : User
bob = record {
  user_id = codes "bob";
  seed_phrase_type = 0;
  devices = [];
  wallets = wallet_at (codes "0xb") ∷ [];
  multisigs = [];
}

abbrev pub people : List User
people = alice ∷ bob ∷ []

abbrev pub from_bob : MultisigMsg
from_bob = record {
  user_id = codes "bob";
  address = codes "0xb";
  invite_code = codes "code";
  address_to_kick = codes "0xa";
  wallet_index = 0;
  currency_id = 60;
  network_id = 4;
  tx_id = codes "0x1";
}

abbrev pub payment : TransactionEth
payment = record {
  user_id = [];
  wallet_index = 0;
  address_index = 0;
  hash = codes "0x1";
  sender = codes "0xa";
  receiver = codes "0xc";
  amount = codes "5";
  gas_price = 1;
  gas_limit = 1;
  nonce = 0;
  status = 1;
  block_time = 0;
  pool_time = 0;
  block_height = 0;
  confirmations = 0;
  is_internal = false;
  multisig = some (record {
    contract = codes "0xc";
    method_invoked = [];
    input = [];
    invocation_status = true;
    request_id = 0;
    return_value = [];
    owners =
        record {
          address = codes "0xa";
          confirmation_tx = codes "0x2";
          confirmation_status = 2;
          confirmation_time = 1400;
          seen_time = 1300;
        }
        ∷ [];
    confirmed = false;
  });
}

abbrev pub world : World users_memory txs_memory
world = record { users = people; txs = record { main_txs = payment ∷ []; test_txs = [] } }
