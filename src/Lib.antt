-- ===== src/Lib.antt =====
-- Multy-back, the back end of the Multy wallet: users with their wallets on Bitcoin and Ethereum,
-- multisig wallets that several users own, the transactions that the nodes report, fee estimates
-- and push messages.
--
-- Parts and files. A file is named by its place below this one, the program's code by its path from
-- the repository's root.
--
-- - Prelude: tests, lists, texts, integers and search loops that the other files share.
-- - Currencies (currencies/): the numbers of chains and networks, dividers, seed phrases.
-- - Fees (client/rest.go: `fetchMempool`, `average`, `fetchQuantile`): Fees/Defs has the code,
--   Fees/Quantile the float32 cuts, Fees/Order the sorted fees, Fees/Average the averages, and
--   Fees/Estimate the whole.
-- - Mempool (btc/handlers.go and eth/handlers.go, the loop on `mempoolCh`): a pool that streams of
--   messages fill and empty, which the fees are taken from.
-- - Calldata (eth/utils.go: `fetchMethod`, `signatuteToStatus`, `parseSubmitInput`,
--   `parseRevokeInput`, and the request id that `ParseMultisigInput` reads): the input of the calls
--   of a multisig contract.
-- - Human (client/utils.go: `Reverse`, `convertToHuman`): the amounts in push messages.
-- - Store (store/): Store/Schemas has the documents, Store/Collection the database as a parameter,
--   Store/Multisigs the operations on the multisigs of users, Store/Transactions the views and
--   refusals of payments, Store/Queries the queries over all users. Store/Deletion, Store/Views and
--   Store/Watched are on what these do.
-- - Socket (client/socket-io.go, the handler of `message:send`): Socket/Join, Socket/Leave,
--   Socket/Kick, Socket/Delete are the handlers that change a multisig, over Socket/Messages and
--   Socket/Owners (`updateUserOwners`), and Socket/Handler dispatches. Socket/Capped and its children,
--   Socket/Reachable, Socket/Refusals, Socket/Joined and Socket/Acceptance have the proofs.
-- - Wallets (client/rest.go and store/store.go: `createCustomWallet`, `createCustomMultisig`,
--   `addAddressToWallet`, `changeName`, `deleteWallet`, `DeleteWallet`, `CheckAddWallet`):
--   Wallets/Params, Wallets/Create, Wallets/Update and Wallets/Delete have the code, Wallets/Distinct,
--   Wallets/Indexes, Wallets/Positions, Wallets/Balances and Wallets/Names the proofs.
-- - Pool (client/socketio-client.go, and the handlers of connection and disconnection in
--   client/socket-io.go): the table of users online, their goroutines, the lock and the channels, as
--   events. Pool/Live and Pool/Stuck have the proofs.
-- - Ether (eth/utils.go: `saveTransaction`, `sendNotifyToClients`, `updateWalletAndAddressDate`):
--   Ether/Save and Ether/Dates have the code, Ether/History the proofs.
-- - Btc (btc/utils.go, and the streams of btc/handlers.go for transactions, resyncs and spendable
--   outputs): Btc/Schemas has the documents and the node's messages, Btc/Convert, Btc/Save, Btc/Info,
--   Btc/Dates, Btc/Notify and Btc/Outputs the steps, and Btc/Streams the handlers that they make up.
--   Btc/Save/History and Btc/Save/Again are on the history, Btc/Outputs/Keys, Btc/Outputs/Keyed and
--   Btc/Outputs/Spent on the outputs, and Btc/Outputs/Purse and its children refine an abstract purse.
-- - Blocks (the handlers of `EventNewBlock` in btc/handlers.go and eth/handlers.go): one handler over
--   what it reads of a document, with the documents of both chains; Blocks/Rejected and
--   Blocks/Bitcoin have the proofs. Blocks/Restore (multy-back.go: `restoreState`; store/store.go:
--   `FetchLastSyncBlockState`) is the start from the recorded height.
-- - Contracts (eth/utils.go: `processMultisig`, `ParseMultisigInput`, `fetchInviteUndeployed`,
--   `FetchUserAddresses` and others; eth/handlers.go: the streams of deployments and transactions):
--   Contracts/Owners, Contracts/Requests, Contracts/Internal, Contracts/Submit, Contracts/Confirm,
--   Contracts/Process, Contracts/Deploy and Contracts/Streams have the code, Contracts/Threshold,
--   Contracts/Repeat, Contracts/Again, Contracts/Entered and Contracts/Frame the proofs.
--
-- - Resync (client/rest.go: `resyncWallet`; store/store.go: `DeleteHistory`, `CheckTx` and the reads of
--   the histories): the reads and the deletion are in Resync itself, the numbers of a request in
--   Resync/Texts, the handler in Resync/Handler; Resync/Frame and Resync/Erased have the proofs.
-- - Exchanger (exchanger/ and client/rest-exchangers.go): the factory over an interface of exchangers,
--   Exchanger/Changelly the one implementation, Exchanger/Handlers the handlers, Exchanger/Values the
--   values that JSON is decoded to; Exchanger/Kept and Exchanger/Answers have the proofs.
--
-- How the code is read. A Go string is the list of its bytes; where the code works on code points, in
-- `strings.ToLower` and in the regular expression of the blocks of an input, the model is for ASCII
-- text, as addresses and inputs in hexadecimal digits are. A 64-bit integer is its pattern, a nil
-- pointer `none`. A panic is a value of its own (`none`, `panic`, `panicked`). The state of a handler
-- is the state of the collections it uses; a write gives the new state, and a read leaves it. The
-- time, the users online and the order in which Go ranges over a map are in `Scene`, or arguments; the
-- answers of the nodes on balances are in `Balances`.
--
-- What is not the program's is a parameter. The driver mgo and MongoDB are the record `Collection`:
-- its calls answer, find nothing or fail; a search that breaks off has read the first matches; a
-- write that failed may have been carried out. `memory` in Store/Memory meets all of this;
-- Store/Members, Store/Removal and Store/Pointwise say what its calls leave of the documents. The
-- quotient of two big.Float values and the decoding by mapstructure are arguments, and so are JSON, the
-- HMAC and HTTP for Changelly, in the record `Outside`.
--
-- Bounds and fuel. `decimal` is given one more step than the number, which has no more digits;
-- `excess_bits` looks at products of up to 88 bits with 64 halvings, which leave at most 24. The
-- float32 arithmetic of `fetchQuantile` is compared with the exact one on each length below 1400,
-- where it is used. The four attempts to remove a spent output are counted down.
--
-- Not modelled: the other handlers of REST, login, exchange rates, also those of a transaction,
-- and what only moves data: gin, socket.io, gRPC, NSQ, Firebase, the configuration. Two
-- handlers at work at once are not interleaved, and a goroutine that a handler starts runs at once.
pub mod Prelude
pub mod Currencies
pub mod Fees
pub mod Mempool
pub mod Calldata
pub mod Human
pub mod Store
pub mod Socket
pub mod Wallets
pub mod Pool
pub mod Ether
pub mod Btc
pub mod Blocks
pub mod Contracts
pub mod Exchanger
pub mod Resync
