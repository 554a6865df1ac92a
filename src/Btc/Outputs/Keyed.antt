-- ===== src/Btc/Outputs/Keyed.antt =====
-- The spendable outputs as lists with one output for each key.
use multy_back.Prelude.{
  ℕ, ◌≡◌, refl, ◌∙◌, Bool, false, List, [], ◌∷◌, ◌++◌, any, arith, Bool-cases, inl, inr, subst,
}
use multy_back.Store.Collection.{modify, remove_first}
use multy_back.Store.Members.{any-modify}
use multy_back.Btc.Schemas.{SpendableOutput}
use multy_back.Btc.Outputs.{Key, key_of, key_eq, is_output, set_output_status}
use multy_back.Btc.Outputs.Keys.{
  key_eq_comm, is_output-set_output_status, is_output_sound, is_output_other,
}

abbrev pub IsKeyed : List SpendableOutput → Type 0
IsKeyed [] = Unit
IsKeyed (o ∷ os) = (any (is_output (key_of o)) os ≡ false) × IsKeyed os

is_output_comm : (a b : SpendableOutput) → is_output (key_of a) b ≡ is_output (key_of b) a
unfolding is_output
is_output_comm a b = key_eq_comm (key_of b) (key_of a)

any-snoc :
    (k : Key) (os : List SpendableOutput) (o : SpendableOutput)
    → any (is_output k) os ≡ false
    → is_output k o ≡ false
    → any (is_output k) (os ++ o ∷ []) ≡ false
any-snoc k [] o h other = ground arith
any-snoc k (x ∷ os) o h other = ground (arith, any-snoc k os o)

-- An output with a new key can be added.
pub snoc-IsKeyed :
    (o : SpendableOutput) (os : List SpendableOutput)
    → any (is_output (key_of o)) os ≡ false
    → IsKeyed os
    → IsKeyed (os ++ o ∷ [])
snoc-IsKeyed o [] new h = (refl, tt)
snoc-IsKeyed o (x ∷ os) new (apart, h) = (
  any-snoc (key_of x) os o apart (is_output_comm x o ∙ ground arith),
  snoc-IsKeyed o os (ground arith) h,
)

pub modify-IsKeyed :
    (q : SpendableOutput → Bool) (status : ℕ) (os : List SpendableOutput)
    → IsKeyed os
    → IsKeyed (modify q (set_output_status status) os)
unfolding modify
modify-IsKeyed q status [] h = tt
modify-IsKeyed q status (x ∷ os) (apart, h) = elim (Bool-cases (q x)) [
  | inl at_x ↦ rw at_x (unfold set_output_status in apart, h)
  | inr past_x ↦ rw past_x (
    any-modify (is_output (key_of x)) q (set_output_status status) os
          (is_output-set_output_status (key_of x) status)
        ∙ apart,
    modify-IsKeyed q status os h,
  )
]

remove_first-absent :
    (k j : Key) (os : List SpendableOutput)
    → any (is_output j) os ≡ false
    → any (is_output j) (remove_first (is_output k) os) ≡ false
unfolding remove_first
remove_first-absent k j [] h = refl
remove_first-absent k j (x ∷ os) h = ground (arith, remove_first-absent k j os)

pub remove_first-IsKeyed :
    (k : Key) (os : List SpendableOutput) → IsKeyed os → IsKeyed (remove_first (is_output k) os)
unfolding remove_first
remove_first-IsKeyed k [] h = tt
remove_first-IsKeyed k (x ∷ os) (apart, h) = elim (Bool-cases (is_output k x)) [
  | inl at_x ↦ rw at_x h
  | inr past_x ↦ rw past_x (remove_first-absent k (key_of x) os apart, remove_first-IsKeyed k os h)
]

-- A removal takes the one output of its key away …
pub remove_first-gone :
    (k : Key) (os : List SpendableOutput)
    → IsKeyed os
    → any (is_output k) (remove_first (is_output k) os) ≡ false
unfolding remove_first
remove_first-gone k [] h = refl
remove_first-gone k (x ∷ os) (apart, h) = elim (Bool-cases (is_output k x)) [
  | inr past_x ↦ rw past_x (rw past_x (remove_first-gone k os h))
  | inl at_x ↦ rw at_x (subst (λ j. any (is_output j) os ≡ false) (is_output_sound k x at_x) apart)
]

-- … and leaves the others.
pub remove_first-other :
    (k j : Key) (os : List SpendableOutput)
    → key_eq k j ≡ false
    → any (is_output j) (remove_first (is_output k) os) ≡ any (is_output j) os
unfolding remove_first
remove_first-other k j [] other = refl
remove_first-other k j (x ∷ os) other = elim (Bool-cases (is_output k x)) [
  | inl at_x ↦ rw at_x (rw (is_output_other k j x at_x other) refl)
  | inr past_x ↦ rw past_x (ground (arith, remove_first-other k j os other))
]
