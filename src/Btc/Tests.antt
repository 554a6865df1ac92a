-- ===== src/Btc/Tests.antt =====
-- The theorems on Bitcoin, on a payment to carol that is reported in the pool and then in a block, and
-- on its output, which is spent.
use multy_back.Prelude.{◌≡◌, ◌≢◌, refl, some, [], ◌∷◌, ◌++◌, codes, Str, str_eq}
use multy_back.Store.Schemas.{User}
use multy_back.Store.Collection.{Collection, ok, failed}
use multy_back.Store.Memory.{memory, found}
use multy_back.Btc.Schemas.{WalletForTx, MultyTx, SpendableOutput, SpentOutput, empty_tx}
use multy_back.Btc.Save.{
  pays_wallet, is_receipt, into_value, into_nothing, is_ok, first_answers, is_confirmed_before,
  is_received_before, entry_read, save_entry, save_for, save_multy_in,
}
use multy_back.Btc.Save.History.{KeyedAfter, save_multy_in-IsKeyed}
use multy_back.Btc.Save.Again.{IsReportOf, save_again}
use multy_back.Btc.Outputs.{Key, key_of, key_eq, is_spent, add_unless_spent, add_output}
use multy_back.Btc.Outputs.Spent.{Step, adds, stay, next, IsGone, Reach-IsGone}
use multy_back.Btc.Outputs.Keyed.{IsKeyed as IsKeyedOutputs}
use multy_back.Btc.Outputs.Purse.{Outputs, added, deleted, handle_all, standing, note_all}
use multy_back.Btc.Outputs.Purse.Refines.{handle_all-Follows}

abbrev history : Collection MultyTx
history = memory MultyTx

abbrev to_carol : WalletForTx
to_carol = record {
  user_id = codes "carol";
  wallet_index = 2;
  address = record { address_index = 0; address_out_index = 0; address = codes "1c"; amount = 5 };
}

abbrev in_pool : MultyTx
in_pool = record empty_tx {
  user_id = codes "carol";
  tx_id = codes "t1";
  tx_address = codes "1c" ∷ [];
  tx_status = 1;
  mempool_time = 1400;
  wallets_output = to_carol ∷ [];
}

abbrev in_block : MultyTx
in_block = record in_pool { tx_status = 2; block_height = 77; confirmations = 1 }

saved : save_multy_in history in_pool [] ≡ some (ok tt, in_pool ∷ [])
unfolding save_multy_in is_confirmed_before is_received_before first_answers into_value into_nothing
    is_ok save_for save_entry entry_read found
saved = refl

reported : IsReportOf history in_pool in_block to_carol
reported = record {
  user = refl;
  number = refl;
  time = refl;
  paid = to_carol;
  others = [];
  outs = refl;
  ins = refl;
  index = refl;
}

read : (why : Str) → history.find_one (is_receipt in_block to_carol) (in_pool ∷ []) ≢ failed why
unfolding found is_receipt pays_wallet str_eq
read why e = cc

save_again_example :
    (save_multy_in history in_block (in_pool ∷ []) ≡ some (ok tt, in_pool ∷ []))
    × (history.docs (in_pool ∷ []) ≡ history.docs [] ++ in_pool ∷ [])
unfolding reported
save_again_example =
    save_again history in_pool in_block to_carol [] [] (in_pool ∷ []) refl refl refl tt saved
      reported read

save_multy_in-IsKeyed_example :
    KeyedAfter history
      (save_multy_in history (record in_block { mempool_time = 1500 }) (in_pool ∷ []))
save_multy_in-IsKeyed_example =
    save_multy_in-IsKeyed history (record in_block { mempool_time = 1500 }) (in_pool ∷ [])
      (refl, tt) (tt, tt)

abbrev output : SpendableOutput
output = record {
  tx_id = codes "t1";
  tx_out_id = 0;
  tx_out_amount = 5;
  tx_out_script = [];
  address = codes "1c";
  user_id = codes "carol";
  wallet_index = 2;
  address_index = 0;
  tx_status = 1;
}

abbrev spending : SpentOutput
spending = record { user_id = codes "carol"; tx_id = codes "t1"; address = codes "1c" }

abbrev nothing : Outputs
nothing = record { outputs = []; spent = [] }

handle_all-Follows_example :
    (l' : Outputs) × (handle_all [] (added output ∷ deleted spending ∷ added output ∷ []) nothing
      ≡ some l')
    × IsKeyedOutputs l'.outputs
    × ((k : Key)
        → standing k l'
          ≡ note_all k (added output ∷ deleted spending ∷ added output ∷ []) (standing k nothing))
handle_all-Follows_example =
    handle_all-Follows [] (added output ∷ deleted spending ∷ added output ∷ []) nothing tt

-- The output is spent before it is added.
abbrev spent_first : Outputs
spent_first = record { outputs = []; spent = spending ∷ [] }

late : Step (memory User) (memory SpendableOutput) (memory SpentOutput) spent_first spent_first
unfolding add_output add_unless_spent found is_spent key_eq str_eq
late = adds output [] spent_first spent_first refl

gone :
    IsGone (memory User) (memory SpendableOutput) (memory SpentOutput) (key_of output) spent_first
unfolding is_spent key_eq str_eq
gone = (refl, refl)

Reach-IsGone_example :
    IsGone (memory User) (memory SpendableOutput) (memory SpentOutput) (key_of output) spent_first
Reach-IsGone_example =
    Reach-IsGone (memory User) (memory SpendableOutput) (memory SpentOutput) (key_of output)
      (next stay late) gone
