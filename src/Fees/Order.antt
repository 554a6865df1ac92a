-- ===== src/Fees/Order.antt =====
-- The sorted fees: in descending order, the same fees, and the same for every order of iteration.
use mathlib.Core.List.{Perm, Permᴰ}
use mathlib.Core.Logic.{∥∥₁_elim}
use native.Mathlib.Decide.{ℕ_discrete}
use multy_back.Prelude.{
  ℕ, suc, ◌^◌, ◌≤◌, ◌<◌, ◌≡◌, refl, ◌∙◌, subst, List, [], ◌∷◌, arith, length, ltb, All, All-imp,
  i64_gt,
}
use multy_back.Fees.Defs.{insert_fee, sort_fees}

-- A fee that is not negative.
abbrev pub IsFee : ℕ → Type 0
IsFee x = x < 2 ^ 63

abbrev pub IsDescending : List ℕ → Type 0
IsDescending [] = Unit
IsDescending (x ∷ xs) = All (λ y. y ≤ x) xs × IsDescending xs

module _ (P : ℕ → Type 0) where
  insert_fee-All : (x : ℕ) (xs : List ℕ) → P x → All P xs → All P (insert_fee x xs)
  unfolding insert_fee
  insert_fee-All x [] p h = (p, tt)
  insert_fee-All x (y ∷ ys) p h = ground (arith, insert_fee-All x ys p h.1)

  pub sort_fees-All : (xs : List ℕ) → All P xs → All P (sort_fees xs)
  unfolding sort_fees
  sort_fees-All [] h = tt
  sort_fees-All (x ∷ xs) (p, h) = insert_fee-All x _ p (sort_fees-All xs h)

-- Between fees the test of the sort is the order of the numbers.
i64_gt-ltb : (a b : ℕ) → IsFee a → IsFee b → i64_gt a b ≡ ltb b a
unfolding i64_gt
i64_gt-ltb a b ha hb = ground arith

All-le_trans : (x y : ℕ) (ys : List ℕ) → y ≤ x → All (λ z. z ≤ y) ys → All (λ z. z ≤ x) ys
All-le_trans x y ys h = All-imp (λ z (p : z ≤ y). omega arith) ys

insert_fee-IsDescending :
    (x : ℕ) (xs : List ℕ)
    → IsFee x
    → All IsFee xs
    → IsDescending xs
    → IsDescending (insert_fee x xs)
unfolding insert_fee
insert_fee-IsDescending x [] p h d = (tt, tt)
insert_fee-IsDescending x (y ∷ ys) p (q, h) (top, d) = ground (
  arith,
  i64_gt-ltb y x q p,
  insert_fee-IsDescending x ys p h d,
  λ (le : x ≤ y). insert_fee-All (λ z. z ≤ y) x ys le top,
  λ (ge : y ≤ x). All-le_trans x y ys ge top,
)

pub sort_fees-IsDescending : (xs : List ℕ) → All IsFee xs → IsDescending (sort_fees xs)
unfolding sort_fees
sort_fees-IsDescending [] h = tt
sort_fees-IsDescending (x ∷ xs) (p, h) =
    insert_fee-IsDescending x (sort_fees xs) p (sort_fees-All IsFee xs h)
      (sort_fees-IsDescending xs h)

length-insert_fee : (x : ℕ) (xs : List ℕ) → length (insert_fee x xs) ≡ suc (length xs)
unfolding insert_fee
length-insert_fee x [] = refl
length-insert_fee x (y ∷ ys) = ground (arith, length-insert_fee x ys)

pub length-sort_fees : (xs : List ℕ) → length (sort_fees xs) ≡ length xs
unfolding sort_fees
length-sort_fees [] = refl
length-sort_fees (x ∷ xs) = omega (arith, length-insert_fee x (sort_fees xs), length-sort_fees xs)

insert_fee_comm :
    (a b : ℕ) (xs : List ℕ)
    → IsFee a
    → IsFee b
    → All IsFee xs
    → insert_fee a (insert_fee b xs) ≡ insert_fee b (insert_fee a xs)
unfolding insert_fee
insert_fee_comm a b [] p q h = ground (arith, i64_gt-ltb a b p q, i64_gt-ltb b a q p)
insert_fee_comm a b (y ∷ ys) p q (r, h) = ground (
  arith,
  i64_gt-ltb a b p q,
  i64_gt-ltb b a q p,
  i64_gt-ltb y a r p,
  i64_gt-ltb y b r q,
  insert_fee_comm a b ys p q h,
)

permᴰ-All : {xs ys : List ℕ} → Permᴰ xs ys → All IsFee xs → All IsFee ys
permᴰ-All Permᴰ.nil h = tt
permᴰ-All (Permᴰ.cons e p) (q, h) = (subst IsFee e q, permᴰ-All p h)
permᴰ-All (Permᴰ.swap e f) (q, (r, h)) = (subst IsFee f r, (subst IsFee e q, h))
permᴰ-All (Permᴰ.trans p p') h = permᴰ-All p' (permᴰ-All p h)

permᴰ-sort_fees : {xs ys : List ℕ} → Permᴰ xs ys → All IsFee xs → sort_fees xs ≡ sort_fees ys
unfolding sort_fees
permᴰ-sort_fees Permᴰ.nil h = refl
permᴰ-sort_fees (Permᴰ.cons e p) (q, h) = cc (permᴰ-sort_fees p h)
permᴰ-sort_fees (Permᴰ.swap {a} {b} {l} e f) (q, (r, h)) =
    cc (insert_fee_comm a b (sort_fees l) q r (sort_fees-All IsFee l h))
permᴰ-sort_fees (Permᴰ.trans p p') h = permᴰ-sort_fees p h ∙ permᴰ-sort_fees p' (permᴰ-All p h)

-- The order in which the pool is read does not matter.
pub perm-sort_fees : (xs ys : List ℕ) → Perm xs ys → All IsFee xs → sort_fees xs ≡ sort_fees ys
perm-sort_fees xs ys p h = ∥∥₁_elim p (hlevel ℕ_discrete) (λ q. permᴰ-sort_fees q h)
