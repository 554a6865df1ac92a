-- ===== src/Ether/Tests.antt =====
-- The theorems on the history, on a payment that is reported again when it is in a block.
use multy_back.Prelude.{◌≡◌, refl, true, false, ◌||◌, none, [], ◌∷◌, codes, str_eq}
use multy_back.Store.Schemas.{TransactionEth}
use multy_back.Store.Collection.{Collection, ok}
use multy_back.Store.Memory.{memory, found, memory_update}
use multy_back.Ether.Save.{is_incoming, is_outgoing, same_key, save_read, save_in}
use multy_back.Ether.History.{IsKeyed, IsRecorded, save_in-IsKeyed, save_in-IsRecorded}

abbrev history : Collection TransactionEth
history = memory TransactionEth

abbrev seen : TransactionEth
seen = record {
  user_id = codes "carol";
  wallet_index = 0;
  address_index = 0;
  hash = codes "0x1";
  sender = codes "0xa";
  receiver = codes "0xb";
  amount = codes "5";
  gas_price = 1;
  gas_limit = 21000;
  nonce = 0;
  status = 1;
  block_time = 0;
  pool_time = 1400;
  block_height = 0;
  confirmations = 0;
  is_internal = false;
  multisig = none;
}

abbrev in_block : TransactionEth
in_block = record seen { status = 2; block_time = 1500; block_height = 77 }

save_in-IsKeyed_example : IsKeyed (save_in history in_block (seen ∷ [])).1
save_in-IsKeyed_example = save_in-IsKeyed history in_block (seen ∷ []) (tt, tt)

comes_in : (is_incoming in_block.status || is_outgoing in_block.status) ≡ true
unfolding is_incoming
comes_in = refl

saved : (save_in history in_block (seen ∷ [])).0 ≡ ok tt
unfolding save_in is_incoming save_read found same_key str_eq memory_update
saved = refl

save_in-IsRecorded_example : IsRecorded history in_block (save_in history in_block (seen ∷ [])).1
save_in-IsRecorded_example = save_in-IsRecorded history in_block (seen ∷ []) comes_in saved
