-- ===== src/Btc/Notify.antt =====
-- `sendNotifyToClients`: the notices of a transaction, in their order.
use multy_back.Prelude.{
  ℕ, Option, none, some, List, [], ◌∷◌, ◌++◌, Str, str_eq, if◌then◌else◌, ◌-◌, ◌^◌, ltb,
}
use multy_back.Currencies.{bitcoin}
use multy_back.Calldata.{decimal}
use multy_back.Ether.Save.{Notice}
use multy_back.Btc.Schemas.{WalletForTx, AddressAmount, MultyTx}

-- `strconv.Itoa` of a 64-bit pattern.
unfoldable pub itoa : ℕ → Str
unfolding decimal
itoa n = if ltb n (2 ^ 63) then decimal n else b'-' ∷ decimal (2 ^ 64 - n)

-- The notice for the user of a wallet.
unfoldable pub wallet_notice : MultyTx → Str → ℕ → WalletForTx → Notice
unfolding itoa
wallet_notice tx to network w = record {
  user_id = w.user_id;
  currency_id = bitcoin;
  network_id = network;
  address = w.address.address;
  amount = itoa tx.tx_out_amount;
  tx_id = tx.tx_id;
  transaction_type = tx.tx_status;
  wallet_index = w.wallet_index;
  sender = w.address.address;
  receiver = to;
  multisig = [];
}

-- The notice for the user of the transaction, of an input.
unfoldable pub input_notice : MultyTx → Str → ℕ → AddressAmount → Notice
unfolding itoa
input_notice tx to network i = record {
  user_id = tx.user_id;
  currency_id = bitcoin;
  network_id = network;
  address = to;
  amount = itoa tx.tx_out_amount;
  tx_id = tx.tx_id;
  transaction_type = tx.tx_status;
  wallet_index = 100;
  sender = i.address;
  receiver = to;
  multisig = [];
}

-- A loop that sends unless the address is the transaction's first.
unfoldable pub send_wallets : MultyTx → Str → ℕ → List WalletForTx → List Notice
unfolding wallet_notice
send_wallets tx to network [] = []
send_wallets tx to network (w ∷ ws) =
    let rest = send_wallets tx to network ws in
    if str_eq w.address.address to then rest else wallet_notice tx to network w ∷ rest

unfoldable pub send_inputs : MultyTx → Str → ℕ → List AddressAmount → List Notice
unfolding input_notice
send_inputs tx to network [] = []
send_inputs tx to network (i ∷ is) =
    let rest = send_inputs tx to network is in
    if str_eq to i.address then rest else input_notice tx to network i ∷ rest

-- `none`: the first of no addresses is read, which every round of the loops does.
unfoldable pub idle :
    List WalletForTx → List WalletForTx → List AddressAmount → Option (List Notice)
idle [] [] [] = some []
idle [] [] (i ∷ is) = none
idle [] (w ∷ ws) is = none
idle (w ∷ ws) ins is = none

unfoldable pub notify_first : MultyTx → List Str → ℕ → Option (List Notice)
unfolding send_wallets send_inputs idle
notify_first tx (to ∷ more) network = some (
    send_wallets tx to network tx.wallets_output
    ++ send_wallets tx to network tx.wallets_input
    ++ send_inputs tx to network tx.tx_inputs)
notify_first tx [] network = idle tx.wallets_output tx.wallets_input tx.tx_inputs

unfoldable pub notify_clients : MultyTx → ℕ → Option (List Notice)
unfolding notify_first
notify_clients tx network = notify_first tx tx.tx_address network
