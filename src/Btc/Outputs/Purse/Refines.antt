-- ===== src/Btc/Outputs/Purse/Refines.antt =====
-- The outputs refine the abstract purse.
use multy_back.Prelude.{
  ◌≡◌, refl, ◌∙◌, ap, some, List, [], ◌∷◌, any, find, Bool-cases, Option-cases, inl, inr, ◌>>=◌,
}
use multy_back.Store.Schemas.{User}
use multy_back.Btc.Outputs.{Key, key_of, spent_key, is_output, is_spent}
use multy_back.Btc.Outputs.Keyed.{IsKeyed}
use multy_back.Btc.Outputs.Purse.{
  Outputs, Report, added, deleted, handle_all, standing, note_all, Follows,
}
use multy_back.Btc.Outputs.Purse.Added.{add_spent, add_new, add_again}
use multy_back.Btc.Outputs.Purse.Deleted.{delete_present, delete_missing}

module _ (users : List User) where
  handle-Follows : (r : Report) (l : Outputs) → IsKeyed l.outputs → Follows users r l
  handle-Follows (added o) l keyed = elim (Option-cases (find (is_spent (key_of o)) l.spent)) [
    | inr (d, spent) ↦ add_spent users o l d spent keyed
    | inl unspent ↦ elim (Option-cases (find (is_output (key_of o)) l.outputs)) [
      | inl new ↦ add_new users o l unspent new keyed
      | inr (d, old) ↦ add_again users o d l unspent old keyed
    ]
  ]
  handle-Follows (deleted del) l keyed =
      elim (Bool-cases (any (is_output (spent_key del)) l.outputs)) [
        | inl there ↦ delete_present users del l there keyed
        | inr missing ↦ delete_missing users del l missing keyed
      ]

  -- Where the database does not fail, and no two spendable outputs have one key, every sequence of
  -- additions and deletions is carried out, again no two have one key, and each key is spendable and
  -- spent exactly as the abstract purse has it.
  pub handle_all-Follows :
      (rs : List Report) (l : Outputs)
      → IsKeyed l.outputs
      → (l' : Outputs) × (handle_all users rs l ≡ some l')
        × IsKeyed l'.outputs
        × ((k : Key) → standing k l' ≡ note_all k rs (standing k l))
  unfolding handle_all note_all
  handle_all-Follows [] l keyed = (l, refl, keyed, λ k. refl)
  handle_all-Follows (r ∷ rs) l keyed =
      let (l', done, keyed', same) = handle-Follows r l keyed in
      let (l'', rest, keyed'', same') = handle_all-Follows rs l' keyed' in
      (l'', rw (done, ◌>>=◌) rest, keyed'', λ k. same' k ∙ ap (note_all k rs) (same k))
