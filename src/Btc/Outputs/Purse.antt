-- ===== src/Btc/Outputs/Purse.antt =====
-- The outputs against an abstract purse, which knows of each key whether it is spendable and whether
-- it is spent, where the database is at work.
pub mod Added
pub mod Deleted
pub mod Refines
use multy_back.Prelude.{
  ℕ, zero, suc, ◌≡◌, refl, sym, subst, ◌∙◌, ap, Bool, true, false, Option, none, some, List, [],
  ◌∷◌, ◌++◌, any, find, arith, Bool-cases, Option-cases, inl, inr, if◌then◌else◌, find-any,
  any-find-some, ◌>>=◌,
}
use multy_back.Store.Schemas.{User}
use multy_back.Store.Collection.{Answer, ok, not_found, failed, Collection, modify, remove_first}
use multy_back.Store.Memory.{memory, found, memory_update, memory_remove}
use multy_back.Store.Multisigs.{has_address}
use multy_back.Store.Members.{any-modify}
use multy_back.Btc.Schemas.{SpendableOutput, SpentOutput}
use multy_back.Btc.Outputs.{
  Key, key_of, spent_key, key_eq, is_output, is_spent, set_output_status, Ledger, add_read,
  add_searched, add_unless_spent, add_output, delete_round, delete_rounds, delete_output,
}
use multy_back.Btc.Outputs.Keys.{
  key_eq_sound, key_eq_refl, key_eq_comm, is_output-set_output_status, is_output_self,
}
use multy_back.Btc.Outputs.Keyed.{
  IsKeyed, snoc-IsKeyed, modify-IsKeyed, remove_first-IsKeyed, remove_first-gone,
  remove_first-other,
}

abbrev pub users_memory : Collection User
users_memory = memory User

abbrev pub outputs_memory : Collection SpendableOutput
outputs_memory = memory SpendableOutput

abbrev pub spent_memory : Collection SpentOutput
spent_memory = memory SpentOutput

abbrev pub Outputs : Type 0
Outputs = Ledger users_memory outputs_memory spent_memory

-- A message of the node.
pub data Report : Type 0 where
  added : SpendableOutput → Report
  deleted : SpentOutput → Report

unfoldable pub handle : List User → Report → Outputs → Option Outputs
handle users (added o) l = add_output users_memory outputs_memory spent_memory o users l
handle users (deleted del) l = some (delete_output users_memory outputs_memory spent_memory del l)

unfoldable pub handle_all : List User → List Report → Outputs → Option Outputs
handle_all users [] l = some l
handle_all users (r ∷ rs) l = handle users r l >>= handle_all users rs

-- What the purse knows of a key.
pub record Standing : Type 0 where
  pub spendable : Bool
  pub spent : Bool

unfoldable pub standing : Key → Outputs → Standing
standing k l = record { spendable = any (is_output k) l.outputs; spent = any (is_spent k) l.spent }

-- The abstract purse: an output is spendable from its addition on, if it has not been spent, and
-- spent from its deletion on.
unfoldable pub note : Key → Report → Standing → Standing
note k (added o) v =
    if key_eq (key_of o) k then (if v.spent then v else record v { spendable = true }) else v
note k (deleted del) v =
    if key_eq (spent_key del) k then record { spendable = false; spent = true } else v

unfoldable pub note_all : Key → List Report → Standing → Standing
note_all k [] v = v
note_all k (r ∷ rs) v = note_all k rs (note k r v)

-- What `handle` does, on each of its ways.
abbrev pub Follows : List User → Report → Outputs → Type 0
Follows users r l =
    (l' : Outputs) × (handle users r l ≡ some l')
    × IsKeyed l'.outputs
    × ((k : Key) → standing k l' ≡ note k r (standing k l))
