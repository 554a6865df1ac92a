-- ===== src/Btc/Outputs/Purse/Deleted.antt =====
-- An output that is deleted, against the abstract purse.
use multy_back.Prelude.{
  ℕ, zero, suc, ◌≡◌, refl, sym, subst, ◌∙◌, true, false, List, [], ◌∷◌, ◌++◌, any, arith,
  Bool-cases, inl, inr, if◌then◌else◌,
}
use multy_back.Store.Schemas.{User}
use multy_back.Store.Collection.{remove_first}
use multy_back.Store.Memory.{memory_remove}
use multy_back.Store.Members.{any-snoc}
use multy_back.Btc.Schemas.{SpendableOutput, SpentOutput}
use multy_back.Btc.Outputs.{
  Key, spent_key, key_eq, is_output, is_spent, delete_round, delete_rounds, delete_output,
}
use multy_back.Btc.Outputs.Keys.{key_eq_sound}
use multy_back.Btc.Outputs.Keyed.{
  IsKeyed, remove_first-IsKeyed, remove_first-gone, remove_first-other,
}
use multy_back.Btc.Outputs.Purse.{
  users_memory, outputs_memory, spent_memory, Outputs, deleted, handle, standing, note, Follows,
}

module _ (users : List User) where
  -- Where there is no such output, the rounds leave the outputs as they are …
  rounds_missing :
      (rounds : ℕ) (del : SpentOutput) (l : Outputs)
      → any (is_output (spent_key del)) l.outputs ≡ false
      → (delete_rounds users_memory outputs_memory spent_memory rounds del l).outputs ≡ l.outputs
  unfolding delete_rounds delete_round memory_remove
  rounds_missing zero del l missing = refl
  rounds_missing (suc rounds) del l missing =
      rw missing (rounds_missing rounds del (record l { spent = l.spent ++ del ∷ [] }) missing)

  -- … and note the key as spent.
  rounds_noted :
      (k : Key) (rounds : ℕ) (del : SpentOutput) (l : Outputs)
      → any (is_output (spent_key del)) l.outputs ≡ false
      → any
          (is_spent k)
          (delete_rounds users_memory outputs_memory spent_memory (suc rounds) del l).spent
        ≡ (if is_spent k del then true else any (is_spent k) l.spent)
  unfolding delete_rounds delete_round memory_remove
  rounds_noted k zero del l missing = rw missing (any-snoc (is_spent k) l.spent del)
  rounds_noted k (suc rounds) del l missing = rw missing (
      rounds_noted k rounds del (record l { spent = l.spent ++ del ∷ [] }) missing
      ∙ ground (arith, any-snoc (is_spent k) l.spent del))

  pub delete_present :
      (del : SpentOutput) (l : Outputs)
      → any (is_output (spent_key del)) l.outputs ≡ true
      → IsKeyed l.outputs
      → Follows users (deleted del) l
  unfolding handle delete_output delete_rounds delete_round memory_remove
  delete_present del l there keyed = (
    record l { outputs = left; spent = l.spent ++ del ∷ [] },
    rw there refl,
    remove_first-IsKeyed (spent_key del) l.outputs keyed,
    same,
  )
    where
      left : List SpendableOutput
      left = remove_first (is_output (spent_key del)) l.outputs

      same :
          (k : Key)
          → standing k (record l { outputs = left; spent = l.spent ++ del ∷ [] })
            ≡ note k (deleted del) (standing k l)
      same k = elim (Bool-cases (key_eq (spent_key del) k)) [
        | inr other ↦
            (unfold note standing in
              rw (any-snoc (is_spent k) l.spent del) (
                rw (remove_first-other (spent_key del) k l.outputs other)
                  (unfold is_spent in rw other refl)))
        | inl at_k ↦
            let gone : any (is_output k) left ≡ false =
              subst (λ j. any (is_output j) left ≡ false) (key_eq_sound (spent_key del) k at_k)
                (remove_first-gone (spent_key del) l.outputs keyed) in
            (unfold note standing in
              rw (any-snoc (is_spent k) l.spent del) (rw gone (unfold is_spent in rw at_k refl)))
      ]

  pub delete_missing :
      (del : SpentOutput) (l : Outputs)
      → any (is_output (spent_key del)) l.outputs ≡ false
      → IsKeyed l.outputs
      → Follows users (deleted del) l
  unfolding handle delete_output
  delete_missing del l missing keyed = (l', refl, subst IsKeyed (sym kept) keyed, same)
    where
      l' : Outputs
      l' = delete_rounds users_memory outputs_memory spent_memory 4 del l

      kept : l'.outputs ≡ l.outputs
      kept = rounds_missing 4 del l missing

      same : (k : Key) → standing k l' ≡ note k (deleted del) (standing k l)
      same k = elim (Bool-cases (key_eq (spent_key del) k)) [
        | inr other ↦
            (unfold note standing in
              rw kept (rw (rounds_noted k 3 del l missing) (unfold is_spent in rw other refl)))
        | inl at_k ↦
            let none_left : any (is_output k) l.outputs ≡ false =
              subst (λ j. any (is_output j) l.outputs ≡ false) (key_eq_sound (spent_key del) k at_k)
                missing in
            (unfold note standing in
              rw kept (
                rw (rounds_noted k 3 del l missing)
                  (rw none_left (unfold is_spent in rw at_k refl))))
      ]
