-- ===== src/Btc/Outputs/Spent.antt =====
-- An output that is known as spent never comes back.
use multy_back.Prelude.{
  ℕ, zero, suc, ◌≡◌, refl, subst, ◌∙◌, true, false, some, any, Bool-cases, inl, inr, find-any,
}
use multy_back.Store.Schemas.{User}
use multy_back.Store.Collection.{Answer, ok, not_found, failed, Collection}
use multy_back.Store.Multisigs.{has_address}
use multy_back.Store.Members.{insert-keeps, insert-absent, update-any, remove-absent}
use multy_back.Btc.Schemas.{SpendableOutput, SpentOutput}
use multy_back.Btc.Outputs.{
  Key, key_of, spent_key, key_eq, is_output, is_spent, set_output_status, Ledger, add_read,
  add_searched, add_unless_spent, add_output, delete_round, delete_rounds, delete_output,
  unless_removed,
}
use multy_back.Btc.Outputs.Keys.{key_eq_sound, is_output-set_output_status}

module _ (c : Collection User) (outs : Collection SpendableOutput)
    (spend : Collection SpentOutput) where
  -- What the streams of the node do to the outputs, in any order and with the users as they are then.
  pub data Step : Ledger c outs spend → Ledger c outs spend → Type 0 where
    adds :
        (o : SpendableOutput) (users : c.State) (l l' : Ledger c outs spend)
        → add_output c outs spend o users l ≡ some l'
        → Step l l'
    deletes :
        (del : SpentOutput) (l l' : Ledger c outs spend)
        → delete_output c outs spend del l ≡ l'
        → Step l l'

  pub data Reach (l : Ledger c outs spend) : Ledger c outs spend → Type 0 where
    stay : Reach l l
    next : {l' l'' : Ledger c outs spend} → Reach l l' → Step l' l'' → Reach l l''

  -- The key is among the spent outputs, and not among the spendable ones.
  abbrev pub IsGone : Key → Ledger c outs spend → Type 0
  IsGone k l =
      (any (is_spent k) (spend.docs l.spent) ≡ true)
      × (any (is_output k) (outs.docs l.outputs) ≡ false)

  delete_round-IsGone :
      (k : Key) (del : SpentOutput) (l : Ledger c outs spend)
      → IsGone k l
      → IsGone k (delete_round c outs spend del l).1
  unfolding delete_round
  delete_round-IsGone k del l (spent, absent) = (
    insert-keeps (is_spent k) spend del l.spent spent,
    remove-absent outs (is_output k) (is_output (spent_key del)) l.outputs absent,
  )

  unless_removed-IsGone :
      (k : Key) (a : Answer (Unit {0})) (l l' : Ledger c outs spend)
      → IsGone k l
      → IsGone k l'
      → IsGone k (unless_removed c outs spend a l l')
  unless_removed-IsGone k (ok u) l l' h h' = h
  unless_removed-IsGone k not_found l l' h h' = h'
  unless_removed-IsGone k (failed why) l l' h h' = h'

  delete_rounds-IsGone :
      (k : Key) (rounds : ℕ) (del : SpentOutput) (l : Ledger c outs spend)
      → IsGone k l
      → IsGone k (delete_rounds c outs spend rounds del l)
  unfolding delete_rounds
  delete_rounds-IsGone k zero del l h = h
  delete_rounds-IsGone k (suc rounds) del l h =
      let r = delete_round c outs spend del l in
      let after = delete_round-IsGone k del l h in
      unless_removed-IsGone k r.0 r.1 (delete_rounds c outs spend rounds del r.1) after
        (delete_rounds-IsGone k rounds del r.1 after)

  -- Where the search of the spent outputs finds none of the key, the key is another.
  other_key :
      (k : Key) (o : SpendableOutput) (l : Ledger c outs spend)
      → IsGone k l
      → spend.find_one (is_spent (key_of o)) l.spent ≡ not_found
      → is_output k o ≡ false
  unfolding is_output
  other_key k o l (spent, absent) read = elim (Bool-cases (key_eq (key_of o) k)) [
    | inr other ↦ other
    | inl same ↦
        let none_spent =
          find-any (is_spent (key_of o)) (spend.docs l.spent)
            (spend.find_one_not_found (is_spent (key_of o)) l.spent read) in
        let at_k : any (is_spent k) (spend.docs l.spent) ≡ false =
          subst (λ j. any (is_spent j) (spend.docs l.spent) ≡ false)
            (key_eq_sound (key_of o) k same) none_spent in
        absurd (cc)
  ]

  add_read-IsGone :
      (k : Key) (o : SpendableOutput) (a : Answer SpendableOutput) (l : Ledger c outs spend)
      → is_output k o ≡ false
      → IsGone k l
      → IsGone k (add_read c outs spend o a l)
  unfolding add_read
  add_read-IsGone k o (failed why) l other h = h
  add_read-IsGone k o not_found l other (spent, absent) =
      (spent, insert-absent (is_output k) outs o l.outputs other absent)
  add_read-IsGone k o (ok d) l other (spent, absent) = (
    spent,
    update-any (is_output k) outs (is_output (key_of o)) (set_output_status o.tx_status) l.outputs
          (is_output-set_output_status k o.tx_status)
        ∙ absent,
  )

  add_searched-IsGone :
      (k : Key) (o : SpendableOutput) (a : Answer User) (l l' : Ledger c outs spend)
      → is_output k o ≡ false
      → IsGone k l
      → add_searched c outs spend o a l ≡ some l'
      → IsGone k l'
  unfolding add_searched
  add_searched-IsGone k o (failed why) l l' other h e = absurd (cc)
  add_searched-IsGone k o not_found l l' other h e =
      subst (IsGone k) (cc e)
        (add_read-IsGone k o (outs.find_one (is_output (key_of o)) l.outputs) l other h)
  add_searched-IsGone k o (ok user) l l' other h e =
      subst (IsGone k) (cc e)
        (add_read-IsGone k o (outs.find_one (is_output (key_of o)) l.outputs) l other h)

  add_unless_spent-IsGone :
      (k : Key) (o : SpendableOutput) (a : Answer SpentOutput) (users : c.State)
      (l l' : Ledger c outs spend)
      → spend.find_one (is_spent (key_of o)) l.spent ≡ a
      → IsGone k l
      → add_unless_spent c outs spend o a users l ≡ some l'
      → IsGone k l'
  unfolding add_unless_spent
  add_unless_spent-IsGone k o (ok d) users l l' read h e = subst (IsGone k) (cc e) h
  add_unless_spent-IsGone k o (failed why) users l l' read h e = subst (IsGone k) (cc e) h
  add_unless_spent-IsGone k o not_found users l l' read h e =
      add_searched-IsGone k o (c.find_one (has_address o.address) users) l l'
        (other_key k o l h read) h e

  Step-IsGone : (k : Key) {l l' : Ledger c outs spend} → Step l l' → IsGone k l → IsGone k l'
  unfolding add_output delete_output
  Step-IsGone k (adds o users l l' e) h =
      add_unless_spent-IsGone k o (spend.find_one (is_spent (key_of o)) l.spent) users l l' refl h e
  Step-IsGone k (deletes del l l' e) h = subst (IsGone k) e (delete_rounds-IsGone k 4 del l h)

  -- An output that is among the spent ones and not among the spendable ones stays so after every
  -- sequence of additions and deletions, whatever the database answers.
  pub Reach-IsGone : (k : Key) {l l' : Ledger c outs spend} → Reach l l' → IsGone k l → IsGone k l'
  Reach-IsGone k stay h = h
  Reach-IsGone k (next r st) h = Step-IsGone k st (Reach-IsGone k r h)
