-- ===== src/Btc/Outputs/Purse/Added.antt =====
-- An output that is added, against the abstract purse.
use multy_back.Prelude.{
  ◌≡◌, refl, subst, ◌∙◌, true, false, Option, none, some, List, [], ◌∷◌, ◌++◌, any, find,
  Bool-cases, inl, inr, find-any,
}
use multy_back.Store.Schemas.{User}
use multy_back.Store.Collection.{modify}
use multy_back.Store.Memory.{found, memory_update}
use multy_back.Store.Multisigs.{has_address}
use multy_back.Store.Members.{any-modify, any-snoc, find-any-true}
use multy_back.Btc.Schemas.{SpendableOutput, SpentOutput}
use multy_back.Btc.Outputs.{
  Key, key_of, key_eq, is_output, is_spent, set_output_status, add_read, add_searched,
  add_unless_spent, add_output,
}
use multy_back.Btc.Outputs.Keys.{key_eq_sound, is_output-set_output_status}
use multy_back.Btc.Outputs.Keyed.{IsKeyed, snoc-IsKeyed, modify-IsKeyed}
use multy_back.Btc.Outputs.Purse.{
  users_memory, outputs_memory, spent_memory, Outputs, added, handle, standing, note, Follows,
}

module _ (users : List User) where
  -- Where the users are searched without a failure, the search has no effect.
  searched :
      (o : SpendableOutput) (l : Outputs) (a : Option User)
      → add_searched users_memory outputs_memory spent_memory o (found a) l
        ≡ some (
            add_read users_memory outputs_memory spent_memory o
              (found (find (is_output (key_of o)) l.outputs))
              l)
  unfolding add_searched found
  searched o l none = refl
  searched o l (some u) = refl

  pub add_spent :
      (o : SpendableOutput) (l : Outputs) (d : SpentOutput)
      → find (is_spent (key_of o)) l.spent ≡ some d
      → IsKeyed l.outputs
      → Follows users (added o) l
  unfolding handle add_output add_unless_spent found
  add_spent o l d e keyed = (l, rw e refl, keyed, same)
    where
      spent : any (is_spent (key_of o)) l.spent ≡ true
      spent = find-any-true (is_spent (key_of o)) l.spent d e

      same : (k : Key) → standing k l ≡ note k (added o) (standing k l)
      same k = elim (Bool-cases (key_eq (key_of o) k)) [
        | inr other ↦ (unfold note in rw other refl)
        | inl at_k ↦
            let known : any (is_spent k) l.spent ≡ true =
              subst (λ j. any (is_spent j) l.spent ≡ true) (key_eq_sound (key_of o) k at_k) spent in
            (unfold note in unfold standing in rw at_k (rw known refl))
      ]

  -- Where the key is not spent, and is that of no spendable output, the output is added.
  pub add_new :
      (o : SpendableOutput) (l : Outputs)
      → find (is_spent (key_of o)) l.spent ≡ none
      → find (is_output (key_of o)) l.outputs ≡ none
      → IsKeyed l.outputs
      → Follows users (added o) l
  unfolding handle add_output add_unless_spent
  add_new o l unspent new keyed = (
    record l { outputs = l.outputs ++ o ∷ [] },
    (unfold found in
        rw unspent (
          searched o l (find (has_address o.address) users)
          ∙ (unfold found add_read in rw new refl))),
    snoc-IsKeyed o l.outputs (find-any (is_output (key_of o)) l.outputs new) keyed,
    same,
  )
    where
      same :
          (k : Key)
          → standing k (record l { outputs = l.outputs ++ o ∷ [] })
            ≡ note k (added o) (standing k l)
      same k = elim (Bool-cases (key_eq (key_of o) k)) [
        | inr other ↦
            (unfold note standing is_output in
              rw (any-snoc (is_output k) l.outputs o) (unfold is_output in rw other refl))
        | inl at_k ↦
            let fresh : any (is_spent k) l.spent ≡ false =
              subst (λ j. any (is_spent j) l.spent ≡ false) (key_eq_sound (key_of o) k at_k)
                (find-any (is_spent (key_of o)) l.spent unspent) in
            (unfold note standing in
              rw (any-snoc (is_output k) l.outputs o) (rw fresh (unfold is_output in rw at_k refl)))
      ]

  -- Where it is that of a spendable output, this one's status is changed.
  pub add_again :
      (o d : SpendableOutput) (l : Outputs)
      → find (is_spent (key_of o)) l.spent ≡ none
      → find (is_output (key_of o)) l.outputs ≡ some d
      → IsKeyed l.outputs
      → Follows users (added o) l
  unfolding handle add_output add_unless_spent
  add_again o d l unspent old keyed = (
    record l { outputs = changed },
    (unfold found in
        rw unspent (
          searched o l (find (has_address o.address) users)
          ∙ (unfold found add_read memory_update in rw old (rw known refl)))),
    modify-IsKeyed (is_output (key_of o)) o.tx_status l.outputs keyed,
    same,
  )
    where
      changed : List SpendableOutput
      changed = modify (is_output (key_of o)) (set_output_status o.tx_status) l.outputs

      known : any (is_output (key_of o)) l.outputs ≡ true
      known = find-any-true (is_output (key_of o)) l.outputs d old

      kept : (k : Key) → any (is_output k) changed ≡ any (is_output k) l.outputs
      kept k =
          any-modify (is_output k) (is_output (key_of o)) (set_output_status o.tx_status) l.outputs
            (is_output-set_output_status k o.tx_status)

      same :
          (k : Key) → standing k (record l { outputs = changed }) ≡ note k (added o) (standing k l)
      same k = elim (Bool-cases (key_eq (key_of o) k)) [
        | inr other ↦ (unfold note standing in rw (kept k) (rw other refl))
        | inl at_k ↦
            let k_is = key_eq_sound (key_of o) k at_k in
            let fresh : any (is_spent k) l.spent ≡ false =
              subst (λ j. any (is_spent j) l.spent ≡ false) k_is
                (find-any (is_spent (key_of o)) l.spent unspent) in
            let there : any (is_output k) l.outputs ≡ true =
              subst (λ j. any (is_output j) l.outputs ≡ true) k_is known in
            (unfold note standing in rw (kept k) (rw at_k (rw fresh (rw there refl))))
      ]
