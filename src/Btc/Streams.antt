-- ===== src/Btc/Streams.antt =====
-- The handlers of btc/handlers.go for new transactions and for the answer to a resync. A panic in a
-- goroutine ends the program: `none`.
use multy_back.Prelude.{
  ℕ, Bool, true, false, not, Option, none, some, List, [], ◌∷◌, keep_if, if◌then◌else◌, Str, str_eq,
  ◌>>=◌,
}
use multy_back.Store.Schemas.{User}
use multy_back.Store.Collection.{Collection}
use multy_back.Ether.Save.{Notice}
use multy_back.Btc.Schemas.{MultyTx, NodeTx, NodeOutput, SpentOutput, SpendableOutput}
use multy_back.Btc.Convert.{generated_tx_data_to_store, generated_sp_outs_to_store}
use multy_back.Btc.Save.{TxStore, save_multy_transaction}
use multy_back.Btc.Info.{set_user_id, set_indexes}
use multy_back.Btc.Dates.{date_tx}
use multy_back.Btc.Notify.{notify_clients}
use multy_back.Btc.Outputs.{Ledger, add_output, delete_output}

-- The answer of the node to a resync.
pub record Resync : Type 0 where
  pub delete_from_queue : Str
  pub txs : List NodeTx
  pub sp_outs : List NodeOutput
  pub sp_out_delete : List SpentOutput

-- The user to whom the end of a resync is announced: that of the first output.
unfoldable pub resync_end : List NodeTx → List NodeOutput → Option Str
resync_end [] outs = none
resync_end (tx ∷ txs) [] = none
resync_end (tx ∷ txs) (o ∷ outs) = some o.user_id

-- `resync.Delete` of the address of each output.
unfoldable pub leave_queue : List NodeOutput → List Str → List Str
leave_queue [] queue = queue
leave_queue (o ∷ outs) queue = leave_queue outs (keep_if (λ a. not (str_eq a o.address)) queue)

unfoldable pub leave_queue_after : List NodeTx → List NodeOutput → List Str → List Str
unfolding leave_queue
leave_queue_after [] outs queue = queue
leave_queue_after (tx ∷ txs) outs queue = leave_queue outs queue

unfoldable pub dequeue : Str → List Str → List Str
dequeue [] queue = queue
dequeue (ch ∷ a) queue = keep_if (λ x. not (str_eq x (ch ∷ a))) queue

module _ (c : Collection User) (t : Collection MultyTx) (outs : Collection SpendableOutput)
    (spend : Collection SpentOutput) where
  -- What the goroutines of one network write to.
  pub record Books : Type 0 where
    pub users : c.State
    pub txs : TxStore t
    pub ledger : Ledger c outs spend
    pub queue : List Str

  -- The transaction as it is saved: with its user and the indexes of its wallets.
  unfoldable pub complete : NodeTx → c.State → MultyTx
  complete g users = set_indexes c (set_user_id c (generated_tx_data_to_store (some g)) users) users

  -- The errors of the save and of the dates are logged.
  unfoldable pub record_tx : NodeTx → ℕ → ℕ → Books → Option Books
  unfolding complete
  record_tx g network now b =
      let tx = complete g b.users in
      (save_multy_transaction t tx network b.txs) >>= λ saved.
      some (record b { txs = saved.1; users = (date_tx c tx now b.users).1 })

  -- The handler of a new transaction.
  unfoldable pub new_tx : NodeTx → ℕ → ℕ → Books → Option (List Notice × Books)
  unfolding record_tx
  new_tx g network now b = (record_tx g network now b) >>= λ b'.
      if g.resync
      then some ([], b')
      else ((notify_clients (complete g b.users) network) >>= λ notices. some (notices, b'))

  unfoldable pub record_txs : List NodeTx → ℕ → ℕ → Books → Option Books
  record_txs [] network now b = some b
  record_txs (g ∷ gs) network now b = (record_tx g network now b) >>= record_txs gs network now

  -- The outputs one after the other; a failed search for the user ends the goroutine, with what has
  -- been added so far: `false`.
  abbrev pub go_on : Books → (Books → Bool × Books) → Option (Ledger c outs spend) → Bool × Books
  go_on b rest none = (false, b)
  go_on b rest (some l) = rest (record b { ledger = l })

  unfoldable pub add_outputs : List NodeOutput → Books → Bool × Books
  add_outputs [] b = (true, b)
  add_outputs (g ∷ gs) b =
      go_on b (add_outputs gs)
        (add_output c outs spend (generated_sp_outs_to_store g) b.users b.ledger)

  unfoldable pub delete_outputs : List SpentOutput → Books → Books
  delete_outputs [] b = b
  delete_outputs (d ∷ ds) b =
      delete_outputs ds (record b { ledger = delete_output c outs spend d b.ledger })

  -- After the outputs: those that were spent, the queue, and the end of the resync.
  unfoldable pub finish : Resync → Bool × Books → Option Str × Books
  unfolding delete_outputs leave_queue_after resync_end
  finish r (false, b) = (none, b)
  finish r (true, b) = (
    resync_end r.txs r.sp_outs,
    record (delete_outputs r.sp_out_delete b) {
      queue = leave_queue_after r.txs r.sp_outs (delete_outputs r.sp_out_delete b).queue;
    },
  )

  -- The handler of a resync, with the user who is told of its end.
  unfoldable pub resync_address : Resync → ℕ → ℕ → Books → Option (Option Str × Books)
  unfolding finish add_outputs dequeue
  resync_address r network now b =
      let start = record b { queue = dequeue r.delete_from_queue b.queue } in
      (record_txs r.txs network now start) >>= λ b'. some (finish r (add_outputs r.sp_outs b'))
