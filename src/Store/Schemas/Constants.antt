-- ===== src/Store/Schemas/Constants.antt =====
-- The constants of store/schemas.go.
use multy_back.Prelude.{ℕ, Str, codes}

abbrev pub tx_appeared_in_mempool_incoming : ℕ
tx_appeared_in_mempool_incoming = 1

abbrev pub tx_appeared_in_block_incoming : ℕ
tx_appeared_in_block_incoming = 2

abbrev pub tx_appeared_in_mempool_outcoming : ℕ
tx_appeared_in_mempool_outcoming = 3

abbrev pub tx_appeared_in_block_outcoming : ℕ
tx_appeared_in_block_outcoming = 4

abbrev pub tx_in_block_confirmed_incoming : ℕ
tx_in_block_confirmed_incoming = 5

abbrev pub tx_in_block_confirmed_outcoming : ℕ
tx_in_block_confirmed_outcoming = 6

abbrev pub tx_in_block_method_invocation_fail : ℕ
tx_in_block_method_invocation_fail = 7

abbrev pub tx_rejected_incoming : ℕ
tx_rejected_incoming = 8

abbrev pub tx_rejected_outgoing : ℕ
tx_rejected_outgoing = 9

abbrev pub waiting_for_join : ℕ
waiting_for_join = 1

abbrev pub all_joined : ℕ
all_joined = 2

abbrev pub deploy_pending : ℕ
deploy_pending = 3

abbrev pub rejected : ℕ
rejected = 4

abbrev pub deployed : ℕ
deployed = 5

abbrev pub owner_waiting : ℕ
owner_waiting = 0

abbrev pub owner_seen : ℕ
owner_seen = 1

abbrev pub owner_confirmed : ℕ
owner_confirmed = 2

abbrev pub owner_declined : ℕ
owner_declined = 3

abbrev pub owner_revoked : ℕ
owner_revoked = 4

-- The types of the messages on the socket.
abbrev pub msg_join : ℕ
msg_join = 1

abbrev pub msg_leave : ℕ
msg_leave = 2

abbrev pub msg_delete : ℕ
msg_delete = 3

abbrev pub msg_kick : ℕ
msg_kick = 4

abbrev pub msg_check : ℕ
msg_check = 5

abbrev pub msg_view : ℕ
msg_view = 6

abbrev pub msg_decline : ℕ
msg_decline = 7

abbrev pub asset_multy : ℕ
asset_multy = 0

abbrev pub asset_multisig : ℕ
asset_multisig = 1

abbrev pub asset_imported : ℕ
asset_imported = 2

abbrev pub maximum_empty_wallets : ℕ
maximum_empty_wallets = 20

abbrev pub wallet_ok : Str
wallet_ok = codes "ok"

abbrev pub wallet_deleted : Str
wallet_deleted = codes "deleted"
