-- ===== src/Btc/Outputs.antt =====
-- The spendable outputs: `generatedSpOutsToStore` and the handlers of btc/handlers.go that add and
-- delete an output, for the streams of new ones and of a resync alike.
pub mod Keys
pub mod Spent
pub mod Keyed
pub mod Purse
use multy_back.Prelude.{
  ℕ, zero, suc, Bool, true, false, ◌&&◌, Option, none, some, List, [], ◌∷◌, Str, str_eq,
}
use multy_back.Store.Schemas.{User}
use multy_back.Store.Collection.{Answer, ok, not_found, failed, Collection}
use multy_back.Store.Multisigs.{has_address}
use multy_back.Btc.Schemas.{SpendableOutput, SpentOutput}

-- `userid`, `txid`, `address`: the query that the handlers use everywhere.
pub record Key : Type 0 where
  pub user_id : Str
  pub tx_id : Str
  pub address : Str

abbrev pub key_of : SpendableOutput → Key
key_of o = record { user_id = o.user_id; tx_id = o.tx_id; address = o.address }

abbrev pub spent_key : SpentOutput → Key
spent_key o = record { user_id = o.user_id; tx_id = o.tx_id; address = o.address }

unfoldable pub key_eq : Key → Key → Bool
key_eq a b = str_eq a.user_id b.user_id && str_eq a.tx_id b.tx_id && str_eq a.address b.address

unfoldable pub is_output : Key → SpendableOutput → Bool
unfolding key_eq
is_output k o = key_eq (key_of o) k

unfoldable pub is_spent : Key → SpentOutput → Bool
unfolding key_eq
is_spent k o = key_eq (spent_key o) k

-- The update of an output that is known: its status alone.
unfoldable pub set_output_status : ℕ → SpendableOutput → SpendableOutput
set_output_status status o = record o { tx_status = status }

module _ (c : Collection User) (outs : Collection SpendableOutput)
    (spend : Collection SpentOutput) where
  pub record Ledger : Type 0 where
    pub outputs : outs.State
    pub spent : spend.State

  unfoldable pub add_read : SpendableOutput → Answer SpendableOutput → Ledger → Ledger
  unfolding set_output_status
  add_read o not_found l = record l { outputs = (outs.insert o l.outputs).1 }
  add_read o (failed why) l = l
  add_read o (ok d) l = record l {
    outputs = (outs.update (is_output (key_of o)) (set_output_status o.tx_status) l.outputs).1;
  }

  -- The search for the user ends the goroutine if it fails, and is for nothing else: `none`.
  unfoldable pub add_searched : SpendableOutput → Answer User → Ledger → Option Ledger
  unfolding add_read
  add_searched o (failed why) l = none
  add_searched o not_found l = some (add_read o (outs.find_one (is_output (key_of o)) l.outputs) l)
  add_searched o (ok user) l = some (add_read o (outs.find_one (is_output (key_of o)) l.outputs) l)

  -- An output is added if it is not among the spent ones.
  unfoldable pub add_unless_spent :
      SpendableOutput → Answer SpentOutput → c.State → Ledger → Option Ledger
  unfolding add_searched
  add_unless_spent o not_found users l = add_searched o (c.find_one (has_address o.address) users) l
  add_unless_spent o (ok d) users l = some l
  add_unless_spent o (failed why) users l = some l

  unfoldable pub add_output : SpendableOutput → c.State → Ledger → Option Ledger
  unfolding add_unless_spent
  add_output o users l = add_unless_spent o (spend.find_one (is_spent (key_of o)) l.spent) users l

  -- The `break` after a removal that succeeded.
  abbrev pub unless_removed : Answer (Unit {0}) → Ledger → Ledger → Ledger
  unless_removed (ok u) removed retried = removed
  unless_removed not_found removed retried = retried
  unless_removed (failed why) removed retried = retried

  -- One round: the output is noted as spent, in each round anew, since the `sync.Once` is the round's,
  -- and then removed.
  unfoldable pub delete_round : SpentOutput → Ledger → Answer (Unit {0}) × Ledger
  delete_round del l =
      let removal = outs.remove (is_output (spent_key del)) l.outputs in
      (removal.0, record l { spent = (spend.insert del l.spent).1; outputs = removal.1 })

  -- The rounds that are left.
  unfoldable pub delete_rounds : ℕ → SpentOutput → Ledger → Ledger
  unfolding delete_round
  delete_rounds zero del l = l
  delete_rounds (suc rounds) del l =
      unless_removed (delete_round del l).0 (delete_round del l).1
        (delete_rounds rounds del (delete_round del l).1)

  unfoldable pub delete_output : SpentOutput → Ledger → Ledger
  unfolding delete_rounds
  delete_output = delete_rounds 4
