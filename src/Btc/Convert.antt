-- ===== src/Btc/Convert.antt =====
-- `generatedTxDataToStore` and `generatedSpOutsToStore`.
use multy_back.Prelude.{Option, none, some, map}
use multy_back.Btc.Schemas.{
  WalletForTx, MultyTx, SpendableOutput, NodeWallet, NodeTx, NodeOutput, empty_tx,
}

unfoldable pub wallet_for_tx : NodeWallet → WalletForTx
wallet_for_tx w = record {
  user_id = w.user_id;
  wallet_index = 0;
  address = record {
    address_index = 0;
    address_out_index = w.tx_out_index;
    address = w.address;
    amount = w.amount;
  };
}

-- The node's outputs become the wallets of the inputs, and its inputs those of the outputs. A nil
-- message is read through its getters.
unfoldable pub generated_tx_data_to_store : Option NodeTx → MultyTx
unfolding wallet_for_tx
generated_tx_data_to_store none = empty_tx
generated_tx_data_to_store (some g) = record {
  user_id = g.user_id;
  tx_id = g.tx_id;
  tx_hash = g.tx_hash;
  tx_out_script = g.tx_out_script;
  tx_address = g.tx_address;
  tx_status = g.tx_status;
  tx_out_amount = g.tx_out_amount;
  block_time = g.block_time;
  block_height = g.block_height;
  confirmations = g.confirmations;
  tx_fee = g.tx_fee;
  mempool_time = g.mempool_time;
  tx_inputs = g.tx_inputs;
  tx_outputs = g.tx_outputs;
  wallets_input = map wallet_for_tx g.wallets_output;
  wallets_output = map wallet_for_tx g.wallets_input;
}

unfoldable pub generated_sp_outs_to_store : NodeOutput → SpendableOutput
generated_sp_outs_to_store g = record {
  tx_id = g.tx_id;
  tx_out_id = g.tx_out_id;
  tx_out_amount = g.tx_out_amount;
  tx_out_script = g.tx_out_script;
  address = g.address;
  user_id = g.user_id;
  wallet_index = g.wallet_index;
  address_index = g.address_index;
  tx_status = g.tx_status;
}
